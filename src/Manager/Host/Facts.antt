-- ===== src/Manager/Host/Facts.antt =====
-- The user's name, the cloud platform and the lock file (manager/common/utils.cpp).
use kylin_kmre_manager.Base.{ℕ, ◌≡◌, refl, true, false, List, [], ◌∷◌, none, some, arith}
use kylin_kmre_manager.Base.Text.{Text, codes, lacks, lacks-append, is_empty}
use kylin_kmre_manager.Manager.Host.{
  replace_char, Account, name_of, get_user_name, LockFile, Locked, locks, would_block, fails,
  drop_fd, try_lock_file, release_lock_file,
}

-- A replaced character is gone, if what replaces it lacks it.
replace_char-lacks :
    (c : ℕ) (with s : Text) → lacks c with ≡ true → lacks c (replace_char c with s) ≡ true
unfolding replace_char lacks
replace_char-lacks c with [] h = refl
replace_char-lacks c with (x ∷ s) h = ground (
  arith,
  replace_char-lacks c with s h,
  lacks-append c with (replace_char c with s) h (replace_char-lacks c with s h),
)

-- The user's name has no backslash, if the static name has none.
get_user_name-lacks :
    (a : Account) (user_name : Text)
    → lacks b'\\' user_name ≡ true
    → lacks b'\\' (get_user_name a user_name) ≡ true
unfolding get_user_name lacks
get_user_name-lacks a [] h = replace_char-lacks b'\\' (codes "_") (name_of a.pw_name a.user) refl
get_user_name-lacks a (c ∷ s) h = h

-- Once the name is not empty, it stays, whatever the account is later.
get_user_name_stays :
    (a b : Account) (user_name : Text)
    → is_empty (get_user_name a user_name) ≡ false
    → get_user_name b (get_user_name a user_name) ≡ get_user_name a user_name
unfolding get_user_name
get_user_name_stays a b [] h = ground arith
get_user_name_stays a b (c ∷ s) h = refl

drop_fd-cons : (fd : ℕ) (l : List ℕ) → drop_fd fd l ≡ l → drop_fd fd (fd ∷ l) ≡ l
unfolding drop_fd
drop_fd-cons fd l h = ground (arith, h)

-- A new descriptor, whether it gets the lock or not: after it is released the descriptors that are
-- open and those that hold the lock are what they were before.
release_lock_file-try_lock_file :
    (fd : ℕ) (first second : Locked) (l : LockFile)
    → drop_fd fd l.opened ≡ l.opened
    → drop_fd fd l.holders ≡ l.holders
    → let released = release_lock_file (try_lock_file (some fd) first second l).0 in
      (released.lock_fd ≡ none) × (released.opened ≡ l.opened) × (released.holders ≡ l.holders)
unfolding release_lock_file try_lock_file
release_lock_file-try_lock_file fd locks second l h k =
    (refl, drop_fd-cons fd l.opened h, drop_fd-cons fd l.holders k)
release_lock_file-try_lock_file fd would_block locks l h k =
    (refl, drop_fd-cons fd l.opened h, drop_fd-cons fd l.holders k)
release_lock_file-try_lock_file fd would_block would_block l h k =
    (refl, drop_fd-cons fd l.opened h, k)
release_lock_file-try_lock_file fd would_block fails l h k = (refl, drop_fd-cons fd l.opened h, k)
release_lock_file-try_lock_file fd fails second l h k = (refl, drop_fd-cons fd l.opened h, k)
