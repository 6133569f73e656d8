-- ===== src/Manager/Apps/Install.antt =====
-- Installing an application in the container (manager/communication/backendworker.cpp: installApp;
-- manager/common/utils.cpp: copyFile, removeFile). The library libkmre.so is a parameter.
use kylin_kmre_manager.Base.{
  Bool, true, false, not, List, [], ◌∷◌, ◌++◌, Option, none, some, list_eq, nat_beq, if◌then◌else◌,
}
use kylin_kmre_manager.Base.Text.{Text, codes, is_empty}
use kylin_kmre_manager.Base.Map.{lookup, insert, erase}

-- The files by their paths, with what they hold.
abbrev pub Files : Type 0
Files = List (Text × Text)

-- What the file system allows: to remove a file, and to write a copy where there is no file.
pub record Disk : Type 0 where
  pub can_remove : Text → Bool
  pub can_copy : Text → Text → Bool

abbrev pub is_there : Option Text → Bool
is_there none = false
is_there (some content) = true

unfoldable pub remove_file : Disk → Text → Files → Bool × Files
remove_file d file fs =
    if not (is_there (lookup file fs))
    then (true, fs)
    else if d.can_remove file
    then (true, erase file fs)
    else (false, fs)

-- QFile::copy, which fails if there is a file at the destination or none at the source.
abbrev pub copy_content : Disk → Text → Text → Option Text → Option Text → Files → Bool × Files
copy_content d src dest none old fs = (false, fs)
copy_content d src dest (some content) (some old) fs = (false, fs)
copy_content d src dest (some content) none fs =
    if d.can_copy src dest then (true, insert dest content fs) else (false, fs)

abbrev pub copy_if_removed : Disk → Text → Text → Bool × Files → Bool × Files
copy_if_removed d src dest (false, fs) = (false, fs)
copy_if_removed d src dest (true, fs) = copy_content d src dest (lookup src fs) (lookup dest fs) fs

unfoldable pub copy_file : Disk → Text → Text → Files → Bool × Files
unfolding remove_file
copy_file d src dest fs = copy_if_removed d src dest (remove_file d dest fs)

-- QFileInfo::fileName: what is after the last slash.
unfoldable pub after_slash : Text → Text → Text
after_slash current [] = current
after_slash current (c ∷ s) =
    let next = after_slash [] s in
    let longer = after_slash (current ++ c ∷ []) s in if nat_beq c b'/' then next else longer

abbrev pub file_name : Text → Text
file_name path = after_slash [] path

-- destFile, for the user's id and name.
unfoldable pub dest_file : Text → Text → Text → Text
unfolding after_slash
dest_file uid user path =
    codes "/var/lib/kmre/kmre-"
    ++ (uid ++ (codes "-" ++ (user ++ (codes "/data/local/tmp/" ++ file_name path))))

-- install_app of the library, if it has one: the file's, the application's and the package's name.
abbrev pub InstallApp : Type 0
InstallApp = Option (Text → Text → Text → Bool)

abbrev pub call_install : InstallApp → Text → Text → Text → Bool
call_install none file app pkg = false
call_install (some f) file app pkg = f file app pkg

abbrev pub install_copied :
    Disk → InstallApp → Text → Text → Text → Text → Bool × Files → Bool × Files
install_copied d library dest name app pkg (false, fs) = (false, fs)
install_copied d library dest name app pkg (true, fs) =
    if call_install library name app pkg then (true, fs) else (false, (remove_file d dest fs).1)

unfoldable pub install_app :
    Disk → InstallApp → Text → Text → Text → Text → Text → Files → Bool × Files
unfolding copy_file dest_file
install_app d library uid user path pkg app fs =
    if is_empty path
    then (false, fs)
    else if not (is_there (lookup path fs))
    then (false, fs)
    else install_copied d library (dest_file uid user path) (file_name path) app pkg
        (copy_file d path (dest_file uid user path) fs)
