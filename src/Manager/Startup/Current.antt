-- ===== src/Manager/Startup/Current.antt =====
-- How getPhysicalDisplaySize and getWindowDisplaySize keep the properties of the container up to date
-- (manager/kmre/wm/displaysizemanager.cpp).
use kylin_kmre_manager.Base.{
  ◌≡◌, ◌⊎◌, inl, inr, refl, sym, ap, ◌∙◌, Bool, true, false, not, ◌&&◌, none, some, string_eq,
  if◌then◌else◌, if_both, arith, Bool-cases,
}
use kylin_kmre_manager.Manager.Display.Size.{
  Size, Sizes, Desktop, get_physical_display_size, get_prefered_window_display_size,
  update_physical_display_size, get_window_display_size, is_proper, size_beq,
}
use kylin_kmre_manager.Manager.Startup.Published.{
  published, published-append, shown, density_at, density_of, width_prop, height_prop, qemu_prop,
  window_prop,
}

-- The physical size that was published last, and the window's, which never is.
pub record IsKept (z : Sizes) : Type 0 where
  pub sizes :
      (z.old_physical_size.width ≡ 0)
      ⊎ ((published width_prop z.calls ≡ some z.old_physical_size.width)
          × (published height_prop z.calls ≡ some z.old_physical_size.height))
  pub window : published window_prop z.calls ≡ none

-- It is the present one.
pub record IsCurrent (z : Sizes) : Type 0 where
  pub width : published width_prop z.calls ≡ some z.physical_size.width
  pub height : published height_prop z.calls ≡ some z.physical_size.height
  pub old_width : z.old_physical_size.width ≡ z.physical_size.width
  pub old_height : z.old_physical_size.height ≡ z.physical_size.height
  pub no_window : published window_prop z.calls ≡ none

pub IsCurrent→IsKept : (z : Sizes) → IsCurrent z → IsKept z
IsCurrent→IsKept z h = record {
  sizes = inr (
    h.width ∙ ap (λ n. some n) (sym h.old_width),
    h.height ∙ ap (λ n. some n) (sym h.old_height),
  );
  window = h.no_window;
}

pub get_physical_display_size-IsCurrent :
    (d : Desktop) (z : Sizes)
    → is_proper (shown d) ≡ true
    → IsKept z
    → IsCurrent (get_physical_display_size d z)
unfolding get_physical_display_size update_physical_display_size
get_physical_display_size-IsCurrent d z proper h =
    elim (Bool-cases (size_beq (shown d) z.old_physical_size)) [
      | inl same ↦
          rw (proper, same)
            (record {
              width = ground (arith, h.sizes);
              height = ground (arith, h.sizes);
              old_width = ground arith;
              old_height = ground arith;
              no_window = h.window;
            })
      | inr other ↦
          rw (proper, other)
            (record {
              width = published-append width_prop z.calls _ ∙ unfold published in refl;
              height = published-append height_prop z.calls _ ∙ unfold published in refl;
              old_width = refl;
              old_height = refl;
              no_window = published-append window_prop z.calls _ ∙ unfold published in h.window;
            })
    ]

-- A step that leaves what IsCurrent reads.
pub get_window_display_size-IsCurrent :
    (d : Desktop) (z : Sizes)
    → is_proper (shown d) ≡ true
    → IsKept z
    → IsCurrent (get_window_display_size d z)
unfolding get_window_display_size get_prefered_window_display_size
get_window_display_size-IsCurrent d z proper h =
    let now = get_physical_display_size-IsCurrent d z proper h in
    if_both (λ (o : Sizes × Size). IsCurrent (record o.0 { virtual_size = o.1 }))
      (is_proper (get_physical_display_size d z).physical_size)
      (record {
        width = now.width;
        height = now.height;
        old_width = now.old_width;
        old_height = now.old_height;
        no_window = now.no_window;
      })
      (record {
        width = now.width;
        height = now.height;
        old_width = now.old_width;
        old_height = now.old_height;
        no_window = now.no_window;
      })

pub get_physical_display_size-qemu :
    (d : Desktop) (z : Sizes)
    → published qemu_prop (get_physical_display_size d z).calls ≡ published qemu_prop z.calls
unfolding get_physical_display_size update_physical_display_size
get_physical_display_size-qemu d z =
    if_both (λ (y : Sizes). published qemu_prop y.calls ≡ published qemu_prop z.calls)
      (is_proper (shown d) && not (size_beq (shown d) z.old_physical_size))
      (published-append qemu_prop z.calls _ ∙ unfold published in refl) refl

if_qemu :
    (test : Bool) (first second : Sizes × Size)
    → (if test then first else second).0.qemu_density
      ≡ (if test then first.0.qemu_density else second.0.qemu_density)
if_qemu true first second = refl
if_qemu false first second = refl

pub get_window_display_size-qemu :
    (d : Desktop) (z : Sizes)
    → ((get_window_display_size d z).qemu_density ≡ density_of d)
      × (published qemu_prop (get_window_display_size d z).calls ≡ published qemu_prop z.calls)
unfolding get_window_display_size get_prefered_window_display_size
get_window_display_size-qemu d z =
    let same = get_physical_display_size-qemu d z in
    let shows : (get_physical_display_size d z).physical_size ≡ shown d =
      unfold get_physical_display_size update_physical_display_size in
      if_both (λ (y : Sizes). y.physical_size ≡ shown d)
        (is_proper (shown d) && not (size_beq (shown d) z.old_physical_size)) refl refl in
    let phys = (get_physical_display_size d z).physical_size in
    let picked : (get_window_display_size d z).qemu_density ≡ density_at phys =
      if_qemu (is_proper phys) _ _ in
    (
      picked ∙ ap density_at shows,
      if_both (λ (o : Sizes × Size). published qemu_prop o.0.calls ≡ published qemu_prop z.calls)
          (is_proper phys) same same,
    )
