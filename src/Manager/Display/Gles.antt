-- ===== src/Manager/Display/Gles.antt =====
-- The probe of OpenGL ES (manager/kmre/wm/gpuinfo.cpp: checkOpenGLESVersion and the whole of
-- checkOpenGLES31AEP). EGL, the driver and sscanf are arguments.
pub mod Balance
use kylin_kmre_manager.Base.{
  ℕ, Bool, true, false, ◌&&◌, ◌||◌, List, [], ◌∷◌, ◌++◌, Option, none, some, ltb, if◌then◌else◌,
}
use kylin_kmre_manager.Base.Int.{ℤ, pos, negsuc}
use kylin_kmre_manager.Base.Text.{Text, codes}
use kylin_kmre_manager.Manager.Display.Probe.{check_opengles_31_aep}

-- sscanf with two %d after a prefix: the numbers, if both are there.
abbrev pub Scan : Type 0
Scan = Text → Text → Option (ℤ × ℤ)

abbrev pub first_scan : Option (ℤ × ℤ) → Option (ℤ × ℤ) → Option (ℤ × ℤ)
first_scan none second = second
first_scan (some v) second = some v

abbrev pub proper_version : Option (ℤ × ℤ) → Option (ℕ × ℕ)
proper_version none = none
proper_version (some (pos major, pos minor)) = if ltb 0 major then some (major, minor) else none
proper_version (some (pos major, negsuc minor)) = none
proper_version (some (negsuc major, minor)) = none

-- What glGetString(GL_VERSION) and glGetError give: an error, no error but a null pointer, or a text.
pub data GlString : Type 0 where
  gl_error null_string : GlString
  gl_text : Text → GlString

-- checkOpenGLESVersion; `none` where sscanf would read from the null pointer.
unfoldable pub check_opengles_version : Scan → GlString → Option (Option (ℕ × ℕ))
check_opengles_version scan gl_error = some none
check_opengles_version scan null_string = none
check_opengles_version scan (gl_text version) = some (
    proper_version
      (first_scan (scan (codes "OpenGL ES-CM ") version) (scan (codes "OpenGL ES ") version)))

-- What EGL and the driver answer.
pub record Egl : Type 0 where
  pub has_display : Bool
  pub initializes : Bool
  pub chooses : Bool
  pub has_config : Bool
  pub creates : Bool
  pub makes_current : Bool
  pub version : GlString
  pub extensions : List Text

-- The calls, for the first five with whether they succeed.
pub data EglCall : Type 0 where
  get_display initialize choose_config create_context make_current : Bool → EglCall
  clear_current destroy_context terminate : EglCall

-- The label `out`, by whether there is a display and a context.
abbrev pub clean_up : Bool → Bool → List EglCall
clean_up false context = []
clean_up true true = clear_current ∷ destroy_context ∷ terminate ∷ []
clean_up true false = clear_current ∷ terminate ∷ []

-- From eglMakeCurrent on, whose answer is not looked at: the calls, and the answer, `none` if the program
-- stops at the null pointer.
abbrev pub with_version : Egl → Option (Option (ℕ × ℕ)) → List EglCall × Option Bool
with_version e none = (make_current e.makes_current ∷ [], none)
with_version e (some version) = (
  make_current e.makes_current ∷ clean_up true true,
  some (check_opengles_31_aep version e.extensions),
)

-- From eglCreateContext, eglChooseConfig and eglInitialize on.
unfoldable pub with_config : Scan → Egl → List EglCall × Option Bool
unfolding check_opengles_version
with_config scan e =
    let rest = with_version e (check_opengles_version scan e.version) in
    if e.creates
    then (create_context true ∷ rest.0, rest.1)
    else (create_context false ∷ clean_up true false, some false)

unfoldable pub with_display : Scan → Egl → List EglCall × Option Bool
unfolding with_config
with_display scan e =
    let rest = with_config scan e in
    if e.chooses
    then (if e.has_config
        then (choose_config true ∷ rest.0, rest.1)
        else (choose_config true ∷ clean_up true false, some false))
    else (choose_config false ∷ clean_up true false, some false)

unfoldable pub check_aep : Scan → Egl → List EglCall × Option Bool
unfolding with_display
check_aep scan e =
    let rest = with_display scan e in
    if e.has_display
    then (if e.initializes
        then (get_display true ∷ initialize true ∷ rest.0, rest.1)
        else (get_display true ∷ initialize false ∷ clean_up true false, some false))
    else (get_display false ∷ clean_up false false, some false)
