-- ===== src/FileWatcher/Service/Queue.antt =====
-- FileInotifyService: the queue of files and its scans (filewatcher/file-inotify/
-- file-inotify-service.cpp: addNotifyFileLocked, notifyFile, loopList; dbus-client.cpp).
use kylin_kmre_manager.Base.{
  ℕ, Bool, true, false, ◌&&◌, ◌||◌, List, [], ◌∷◌, ◌++◌, Option, none, some, drop, length,
  if◌then◌else◌,
}
use kylin_kmre_manager.Base.Text.{Text, codes, starts_with}
use kylin_kmre_manager.Base.Int.{ℤ, pos, minus_one, int_beq, to_int32}

-- NotifyFileInfo; `size` is an int.
pub record NotifyFileInfo : Type 0 where
  pub path : Text
  pub size : ℤ

-- What the system answers about a path while one scan runs: its size, the bus daemon's answer to
-- NameHasOwner while the path is handled (`none` for an error reply), and the type of its content.
pub record Answers : Type 0 where
  pub stat_size : Text → Option ℕ
  pub name_has_owner : Text → Option Bool
  pub mime_of_content : Text → Text

-- A call of addOneRecord: the path as the container sees it, and its type.
abbrev pub Announcement : Type 0
Announcement = Text × Text

unfoldable pub container_prefix : Text
container_prefix = codes "/storage/emulated/0/0-麒麟文件/"

unfoldable pub is_media : Text → Bool
is_media mime = starts_with mime (codes "image/") || starts_with mime (codes "video/")

-- DBusClient::queryService: the answer and the new value of mServiceNameOwned.
unfoldable pub query_service : Option Bool → Bool → Bool × Bool
query_service reply true = (true, true)
query_service (some b) false = (b, b)
query_service none false = (false, false)

-- QString::replace(0, n, after).
unfoldable pub replace_front : ℕ → Text → Text → Text
replace_front n after path = after ++ drop n path

-- notifyFile: its result, the new mServiceNameOwned, and the announcements made.
unfoldable pub notify_file : Answers → Text → Bool → Text → Bool × Bool × List Announcement
notify_file a home owned path =
    let (there, owned') = query_service (a.name_has_owner path) owned in
    if there
    then (
      true,
      owned',
      (if is_media (a.mime_of_content path)
          then (replace_front (length home) container_prefix path, a.mime_of_content path) ∷ []
          else []),
    )
    else (false, owned', [])

-- One entry of a scan: what is left of it (`none` if it is removed), mServiceNameOwned, and the
-- announcements made.
unfoldable pub visit_sized :
    Answers
    → Text
    → Bool
    → NotifyFileInfo
    → Option ℕ
    → Option NotifyFileInfo × Bool × List Announcement
visit_sized a home owned info none = (none, owned, [])
visit_sized a home owned info (some n) =
    if int_beq (pos n) info.size
    then (let (done, owned', made) = notify_file a home owned info.path in
        ((if done then none else some info), owned', made))
    else (some (record info { size = to_int32 n }), owned, [])

unfoldable pub visit :
    Answers → Text → Bool → NotifyFileInfo → Option NotifyFileInfo × Bool × List Announcement
visit a home owned info = visit_sized a home owned info (a.stat_size info.path)

abbrev pub cons? : Option NotifyFileInfo → List NotifyFileInfo → List NotifyFileInfo
cons? none l = l
cons? (some i) l = i ∷ l

-- One round of loopList over mFileList, under mListLock.
unfoldable pub scan :
    Answers → Text → Bool → List NotifyFileInfo → List NotifyFileInfo × Bool × List Announcement
scan a home owned [] = ([], owned, [])
scan a home owned (i ∷ l) =
    let (left, owned', made) = visit a home owned i in
    let (rest, owned'', more) = scan a home owned' l in (cons? left rest, owned'', made ++ more)

-- loopList: a scan for each round.
unfoldable pub scans :
    List Answers
    → Text
    → Bool
    → List NotifyFileInfo
    → List NotifyFileInfo × Bool × List Announcement
scans [] home owned l = (l, owned, [])
scans (a ∷ as') home owned l =
    let (l', owned', made) = scan a home owned l in
    let (l'', owned'', more) = scans as' home owned' l' in (l'', owned'', made ++ more)

-- A file that has just been queued.
abbrev pub fresh : Text → NotifyFileInfo
fresh path = record { path = path; size = minus_one }

-- addNotifyFileLocked: the condition under which a path is queued, and the queue afterwards.
unfoldable pub is_wanted : (Text → Text) → Text → Text → Bool
is_wanted mime_of_name home path = starts_with path home && is_media (mime_of_name path)

unfoldable pub add_notify_file :
    (Text → Text) → Text → Text → List NotifyFileInfo → List NotifyFileInfo
add_notify_file mime_of_name home path l =
    if is_wanted mime_of_name home path then l ++ fresh path ∷ [] else l
