-- ===== src/Manager/Display/Gles/Balance.antt =====
-- What the probe of OpenGL ES leaves behind (manager/kmre/wm/gpuinfo.cpp).
use mathlib.Core.Option
use kylin_kmre_manager.Base.{
  ℕ, ◌≡◌, refl, Bool, true, false, ◌&&◌, List, [], ◌∷◌, Option, none, some, if◌then◌else◌, arith,
}
use kylin_kmre_manager.Manager.Display.Probe.{check_opengles_31_aep}
use kylin_kmre_manager.Manager.Display.Gles.{
  Scan, GlString, gl_error, null_string, gl_text, check_opengles_version, Egl, EglCall, get_display,
  initialize, choose_config, create_context, make_current, clear_current, destroy_context,
  terminate, with_version, with_config, with_display, check_aep,
}

-- What the program holds: nothing, a display that is not initialized, one that is, one with a context, or
-- that context current.
pub data Held : Type 0 where
  nothing display ready context current : Held

-- How a call changes it, as the specification of EGL has it; `none` for a call that is out of place.
-- A call that fails changes nothing. No context may be made current on any display, and a display that
-- is not initialized may be terminated.
unfoldable pub hold : EglCall → Held → Option Held
hold (get_display done) nothing = some (if done then display else nothing)
hold (initialize done) display = some (if done then ready else display)
hold (choose_config done) ready = some ready
hold (create_context done) ready = some (if done then context else ready)
hold (make_current done) context = some (if done then current else context)
hold clear_current current = some context
hold clear_current context = some context
hold clear_current ready = some ready
hold clear_current display = some display
hold destroy_context context = some ready
hold terminate ready = some nothing
hold terminate display = some nothing
hold _ _ = none

abbrev pub held_after : List EglCall → Option Held → Option Held
held_after [] h = h
held_after (c ∷ cs) none = none
held_after (c ∷ cs) (some h) = held_after cs (hold c h)

-- Whether a context is created.
abbrev pub gets_context : Egl → Bool
gets_context e = e.has_display && (e.initializes && (e.chooses && (e.has_config && e.creates)))

abbrev pub is_null : GlString → Bool
is_null gl_error = false
is_null null_string = true
is_null (gl_text version) = false

held_with_version :
    (scan : Scan) (e : Egl) (v : GlString)
    → held_after (with_version e (check_opengles_version scan v)).0 (some context)
      ≡ some (if is_null v then (if e.makes_current then current else context) else nothing)
unfolding check_opengles_version hold
held_with_version scan e gl_error = ground arith
held_with_version scan e null_string = ground arith
held_with_version scan e (gl_text version) = ground arith

answer_with_version :
    (e : Egl) (o : Option (Option (ℕ × ℕ)))
    → (with_version e o).1 ≡ Option.map (λ v. check_opengles_31_aep v e.extensions) o
answer_with_version e none = refl
answer_with_version e (some v) = refl

-- Whatever EGL and the driver answer, no call is out of place. Nothing is held in the end, unless a
-- context is created and its version is a null pointer without an error: there the program stops with
-- the context held, current if it could be made so. The answer is yes exactly if a context is created and
-- the version and the extensions pass the test; there is none where the program stops.
pub check_aep-held_after :
    (scan : Scan) (e : Egl)
    → (held_after (check_aep scan e).0 (some nothing)
        ≡ some (
            if gets_context e && is_null e.version
            then (if e.makes_current then current else context)
            else nothing))
      × ((check_aep scan e).1 ≡ (
          if gets_context e
          then Option.map
              (λ v. check_opengles_31_aep v e.extensions)
              (check_opengles_version scan e.version)
          else some false))
unfolding check_aep with_display with_config hold
check_aep-held_after scan e = (
  ground (arith, held_with_version scan e e.version),
  ground (arith, answer_with_version e (check_opengles_version scan e.version)),
)
