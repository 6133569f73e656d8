-- ===== src/Manager/Apps/Icon/Staying.antt =====
-- What stays on the desktop of an application that was installed and uninstalled (manager/communication/
-- backendworker.cpp).
use kylin_kmre_manager.Base.{
  ℕ, ◌≡◌, refl, ◌∙◌, inl, inr, Bool, true, false, List, [], ◌∷◌, ◌++◌, ◌==◌, list_eq, list_beq,
  ==-refl, if◌then◌else◌, if_both, arith, Bool-cases, any,
}
use kylin_kmre_manager.Base.Text.{Text, codes, is_empty}
use kylin_kmre_manager.Manager.Apps.Desktop.{
  AppInfo, generate_desktop, png_icon, svg_icon, desktop_name, desktop_path,
  remove_desktop_and_icon, if_there,
}
use kylin_kmre_manager.Manager.Apps.Icon.{
  Files, with_file, without, without_all, container_icon, Login, generate_icon,
  update_desktop_and_icon, removed,
}

beq-append : (h x y : Text) → list_beq (h ++ x) (h ++ y) ≡ list_beq x y
beq-append [] x y = refl
beq-append (c ∷ h) x y = ground (arith, beq-append h x y)

svg_icon_is_no_png : (home pkg : Text) → (svg_icon home pkg == png_icon home pkg) ≡ false
unfolding svg_icon png_icon
svg_icon_is_no_png home pkg =
    beq-append home _ _
    ∙ beq-append (codes "/.local/share/icons/") (pkg ++ codes ".svg") (pkg ++ codes ".png")
    ∙ beq-append pkg (codes ".svg") (codes ".png")

svg_icon_is_no_desktop : (home pkg : Text) → (svg_icon home pkg == desktop_path home pkg) ≡ false
unfolding svg_icon desktop_path desktop_name
svg_icon_is_no_desktop home pkg = beq-append home _ _ ∙ refl

-- A file is there after the removals if it was before and none is its own.
without_all-any :
    (ps : List Text) (f : Files) (q : Text)
    → without_all ps f q ≡ (if any (λ p. q == p) ps then false else f q)
unfolding without_all
without_all-any [] f q = refl
without_all-any (p ∷ ps) f q = without_all-any ps (without p f) q ∙ ground arith

removed-svg :
    (u : Login) (pkg : Text) (f : Files)
    → removed u pkg f (svg_icon u.home pkg) ≡ f (svg_icon u.home pkg)
unfolding removed remove_desktop_and_icon
removed-svg u pkg f =
    let svg = svg_icon u.home pkg in
    let png = png_icon u.home pkg in
    let desktop = desktop_path u.home pkg in
    let none_of : any (λ p. svg == p) (if_there f png ++ if_there f desktop) ≡ false =
      if_both (λ l. any (λ p. svg == p) (l ++ if_there f desktop) ≡ false) (f png)
        (if_both (λ l. any (λ p. svg == p) (png ∷ l) ≡ false) (f desktop)
          (ground (arith, svg_icon_is_no_png u.home pkg, svg_icon_is_no_desktop u.home pkg))
          (ground (arith, svg_icon_is_no_png u.home pkg)))
        (if_both (λ l. any (λ p. svg == p) l ≡ false) (f desktop)
          (ground (arith, svg_icon_is_no_desktop u.home pkg)) refl) in
    without_all-any (remove_desktop_and_icon f u.home pkg) f svg ∙ rw none_of refl

removed-desktop :
    (u : Login) (pkg : Text) (f : Files) → removed u pkg f (desktop_path u.home pkg) ≡ false
unfolding removed remove_desktop_and_icon
removed-desktop u pkg f =
    let png = png_icon u.home pkg in
    let desktop = desktop_path u.home pkg in
    let l = remove_desktop_and_icon f u.home pkg in
    let gone : f desktop ≡ true
        → any (λ p. desktop == p) (if_there f png ++ if_there f desktop) ≡ true =
      λ there. rw there (
        if_both (λ k. any (λ p. desktop == p) (k ++ desktop ∷ []) ≡ true) (f png)
          (ground (arith, ==-refl desktop)) (ground (arith, ==-refl desktop))) in
    without_all-any l f desktop ∙ elim (Bool-cases (f desktop)) [
      | inr absent ↦ if_both (λ b. b ≡ false) (any (λ p. desktop == p) l) refl absent
      | inl there ↦ rw (gone there) refl
    ]

-- generateIcon, for an icon of the container that is an image.
generate_icon-svg :
    (loads : Text → Bool) (u : Login) (c : ℕ) (pkg : Text) (f : Files)
    → f (container_icon u.uid u.user (c ∷ pkg)) ≡ true
    → loads (container_icon u.uid u.user (c ∷ pkg)) ≡ true
    → (container_icon u.uid u.user (c ∷ pkg) == svg_icon u.home (c ∷ pkg)) ≡ false
    → (generate_icon loads u (c ∷ pkg) f).files (svg_icon u.home (c ∷ pkg)) ≡ true
unfolding generate_icon
generate_icon-svg loads u c pkg f there image other =
    let png = container_icon u.uid u.user (c ∷ pkg) in
    let svg = svg_icon u.home (c ∷ pkg) in
    let named : is_empty png ≡ false = unfold container_icon in refl in
    rw (there, named, other, image, ==-refl svg) refl

-- An application whose icon the container has as an image is installed, where its desktop file can be
-- written, and uninstalled: the desktop file is gone, but the icon that was made stays.
pub removed-update_desktop_and_icon :
    (loads : Text → Bool) (u : Login) (a : AppInfo) (c : ℕ) (pkg : Text) (f : Files)
    → a.pkg_name ≡ c ∷ pkg
    → f (container_icon u.uid u.user (c ∷ pkg)) ≡ true
    → loads (container_icon u.uid u.user (c ∷ pkg)) ≡ true
    → (container_icon u.uid u.user (c ∷ pkg) == svg_icon u.home (c ∷ pkg)) ≡ false
    → let g = removed u (c ∷ pkg) (update_desktop_and_icon loads true u a f).0 in
      (g (desktop_path u.home (c ∷ pkg)) ≡ false) × (g (svg_icon u.home (c ∷ pkg)) ≡ true)
removed-update_desktop_and_icon loads u a c pkg f name there image other =
    let g = (update_desktop_and_icon loads true u a f).0 in
    (removed-desktop u (c ∷ pkg) g, removed-svg u (c ∷ pkg) g ∙ updated)
  where
    updated : (update_desktop_and_icon loads true u a f).0 (svg_icon u.home (c ∷ pkg)) ≡ true
    updated =
        unfold update_desktop_and_icon generate_desktop in
        rw name (
          generate_icon-svg loads u c pkg (with_file (desktop_path u.home (c ∷ pkg)) f)
            (ground (arith, there)) image other)
