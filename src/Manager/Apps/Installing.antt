-- ===== src/Manager/Apps/Installing.antt =====
-- What an installation leaves of the files (manager/communication/backendworker.cpp,
-- manager/common/utils.cpp).
use kylin_kmre_manager.Base.{
  ◌≡◌, refl, sym, ◌∙◌, inl, inr, Bool, true, false, none, some, ◌==◌, list_eq, ==→≡, if◌then◌else◌,
  arith, Bool-cases, Option-cases,
}
use kylin_kmre_manager.Base.Text.{Text, is_empty}
use kylin_kmre_manager.Base.Map.{
  lookup, lookup-insert, lookup-erase, lookup-insert_self, lookup-erase_self,
}
use kylin_kmre_manager.Manager.Apps.Install.{
  Files, Disk, remove_file, copy_if_removed, copy_file, install_copied, file_name, dest_file,
  InstallApp, call_install, install_app,
}

-- The result of a step that is to leave `content` at a destination, or nothing.
record Leaves (d : Disk) (dest content : Text) (fs : Files) (r : Bool × Files) : Type 0 where
  pub on_success : r.0 ≡ true → lookup dest r.1 ≡ some content
  pub on_failure : r.0 ≡ false → d.can_remove dest ≡ true → lookup dest r.1 ≡ none
  pub others : (q : Text) → (dest == q) ≡ false → lookup q r.1 ≡ lookup q fs

remove_file_lem :
    (d : Disk) (file : Text) (fs : Files)
    → ((remove_file d file fs).0 ≡ true → lookup file (remove_file d file fs).1 ≡ none)
      × (d.can_remove file ≡ true → (remove_file d file fs).0 ≡ true)
      × ((q : Text) → (file == q) ≡ false → lookup q (remove_file d file fs).1 ≡ lookup q fs)
unfolding remove_file
remove_file_lem d file fs = (
  λ e. ground (arith, Option-cases (lookup file fs), lookup-erase_self file fs),
  λ e. ground arith,
  λ q e. ground (arith, lookup-erase file q fs),
)

copy_if_removed-Leaves :
    (d : Disk) (src dest content : Text) (fs : Files) (r : Bool × Files)
    → lookup src fs ≡ some content
    → (dest == src) ≡ false
    → (r.0 ≡ true → lookup dest r.1 ≡ none)
    → (d.can_remove dest ≡ true → r.0 ≡ true)
    → ((q : Text) → (dest == q) ≡ false → lookup q r.1 ≡ lookup q fs)
    → Leaves d dest content fs (copy_if_removed d src dest r)
copy_if_removed-Leaves d src dest content fs (false, gs) there apart gone can same = record {
  on_success = λ e. ground arith;
  on_failure = λ e removable. ground (arith, can removable);
  others = same;
}
copy_if_removed-Leaves d src dest content fs (true, gs) there apart gone can same =
    rw (same src apart, there, gone refl)
      (elim (Bool-cases (d.can_copy src dest)) [
        | inl copies ↦ rw copies (record {
          on_success = λ e. lookup-insert_self dest content gs;
          on_failure = λ e removable. ground arith;
          others = λ q other. ground (arith, lookup-insert dest q content gs, same q other);
        })
        | inr fails ↦ rw fails (record {
          on_success = λ e. ground arith;
          on_failure = λ e removable. gone refl;
          others = same;
        })
      ])

copy_file-Leaves :
    (d : Disk) (src dest content : Text) (fs : Files)
    → lookup src fs ≡ some content
    → (dest == src) ≡ false
    → Leaves d dest content fs (copy_file d src dest fs)
unfolding copy_file
copy_file-Leaves d src dest content fs there apart =
    let (gone, can, same) = remove_file_lem d dest fs in
    copy_if_removed-Leaves d src dest content fs (remove_file d dest fs) there apart gone can same

install_copied-Leaves :
    (d : Disk) (library : InstallApp) (dest content name app pkg : Text) (fs : Files)
    (r : Bool × Files)
    → Leaves d dest content fs r
    → Leaves d dest content fs (install_copied d library dest name app pkg r)
install_copied-Leaves d library dest content name app pkg fs (false, gs) l = l
install_copied-Leaves d library dest content name app pkg fs (true, gs) l =
    let (gone, can, same) = remove_file_lem d dest gs in
    elim (Bool-cases (call_install library name app pkg)) [
      | inl good ↦ rw good l
      | inr bad ↦ rw bad (record {
        on_success = λ e. ground arith;
        on_failure = λ e removable. gone (can removable);
        others = λ q other. same q other ∙ l.others q other;
      })
    ]

install_app-Leaves :
    (d : Disk) (library : InstallApp) (uid user path pkg app content : Text) (fs : Files)
    → is_empty path ≡ false
    → lookup path fs ≡ some content
    → (dest_file uid user path == path) ≡ false
    → Leaves d (dest_file uid user path) content fs (install_app d library uid user path pkg app fs)
unfolding install_app
install_app-Leaves d library uid user path pkg app content fs named there apart =
    rw (named, there)
      (install_copied-Leaves d library (dest_file uid user path) content (file_name path) app pkg fs
        (copy_file d path (dest_file uid user path) fs)
        (copy_file-Leaves d path (dest_file uid user path) content fs there apart))

-- Installing a file that is there, from elsewhere than the container's directory, where a file at the
-- destination can be removed: if it succeeds, the destination holds what the file holds; if it fails,
-- there is no file at the destination; and no other file is touched in either case.
pub install_app_lem :
    (d : Disk) (library : InstallApp) (uid user path pkg app content : Text) (fs : Files) (q : Text)
    → is_empty path ≡ false
    → lookup path fs ≡ some content
    → (dest_file uid user path == path) ≡ false
    → d.can_remove (dest_file uid user path) ≡ true
    → let r = install_app d library uid user path pkg app fs in
      lookup q r.1
      ≡ (if dest_file uid user path == q then (if r.0 then some content else none) else lookup q fs)
install_app_lem d library uid user path pkg app content fs q named there apart removable =
    let dest = dest_file uid user path in
    let r = install_app d library uid user path pkg app fs in
    let l = install_app-Leaves d library uid user path pkg app content fs named there apart in
    let at_dest : lookup dest r.1 ≡ (if r.0 then some content else none) = elim (Bool-cases r.0) [
      | inl good ↦ rw good (l.on_success good)
      | inr bad ↦ rw bad (l.on_failure bad removable)
    ] in
    elim (Bool-cases (dest == q)) [
      | inl same ↦ rw (same, sym (==→≡ dest q same)) at_dest
      | inr other ↦ rw other (l.others q other)
    ]

-- Installing a file that already is in the container's directory fails, and removes the file, if it can
-- be removed.
install_app_in_place :
    (d : Disk) (library : InstallApp) (uid user path pkg app content : Text) (fs : Files)
    → is_empty path ≡ false
    → lookup path fs ≡ some content
    → dest_file uid user path ≡ path
    → d.can_remove path ≡ true
    → ((install_app d library uid user path pkg app fs).0 ≡ false)
      × (lookup path (install_app d library uid user path pkg app fs).1 ≡ none)
unfolding install_app copy_file remove_file
install_app_in_place d library uid user path pkg app content fs named there same removable =
    let gone = lookup-erase_self path fs in
    rw (named, there, same, there, removable, gone) (refl, gone)
