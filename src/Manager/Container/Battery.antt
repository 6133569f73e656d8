-- ===== src/Manager/Container/Battery.antt =====
-- What the container knows of the battery (manager/power/powermanager.cpp).
use kylin_kmre_manager.Base.{
  ◌≡◌, ◌≢◌, refl, sym, ap, ◌∙◌, ◌⊎◌, inl, inr, true, List, [], ◌∷◌, none, some, ◌==◌, Eq, list_eq,
  arith, Bool-cases, if_both,
}
use kylin_kmre_manager.Base.Int.{ℤ, minus_one, int_beq, int_beq_iff}
use kylin_kmre_manager.Base.Text.{Text, codes}
use kylin_kmre_manager.Base.Map.{lookup, lookup-insert}
use kylin_kmre_manager.Manager.Container.{
  Reading, Power, state_or, percent_or, charging, new_power, update_state, update_percent,
  on_update_battery_state, update_all,
}

module _ {D : Type 0} ⦃e : Eq D⦄ (zero_percent hundred : D) (number : D → Text) where
  -- The container was told the last state and the last percentage, unless they are those from the start.
  record IsTold (p : Power D) : Type 0 where
    state :
        ((p.power_state ≡ minus_one) × (lookup (codes "battery_charging") p.props ≡ none))
        ⊎ (lookup (codes "battery_charging") p.props ≡ some (charging p.power_state))
    percent :
        ((p.battery_percent ≡ zero_percent) × (lookup (codes "battery_percent") p.props ≡ none))
        ⊎ (lookup (codes "battery_percent") p.props ≡ some (number p.battery_percent))

  update_state-IsTold :
      (s : ℤ) (p : Power D) → IsTold p → IsTold (update_state zero_percent hundred number s p)
  unfolding update_state
  update_state-IsTold s p t = elim (Bool-cases (int_beq p.power_state s)) [
    | inl same ↦ rw same t
    | inr other ↦ rw other (record {
      state = inr (
          lookup-insert (codes "battery_charging") (codes "battery_charging") (charging s) p.props);
      percent =
          rw
            (lookup-insert (codes "battery_charging") (codes "battery_percent") (charging s)
              p.props)
            (t.percent);
    })
  ]

  update_percent-IsTold :
      (d : D) (p : Power D) → IsTold p → IsTold (update_percent zero_percent hundred number d p)
  unfolding update_percent
  update_percent-IsTold d p t = elim (Bool-cases (p.battery_percent == d)) [
    | inl same ↦ rw same t
    | inr other ↦ rw other (record {
      state =
          rw (lookup-insert (codes "battery_percent") (codes "battery_charging") (number d) p.props)
            (t.state);
      percent =
          inr
            (lookup-insert (codes "battery_percent") (codes "battery_percent") (number d) p.props);
    })
  ]

  on_update-IsTold :
      (r : Reading D) (p : Power D)
      → IsTold p
      → IsTold (on_update_battery_state zero_percent hundred number r p)
  unfolding on_update_battery_state
  on_update-IsTold r p t =
      let s = state_or r.state in
      let now = update_state zero_percent hundred number s p in
      if_both IsTold r.booted
        (update_percent-IsTold (percent_or hundred r.percentage) now (update_state-IsTold s p t)) t

  update_all-IsTold :
      (rs : List (Reading D)) (p : Power D)
      → IsTold p
      → IsTold (update_all zero_percent hundred number rs p)
  unfolding update_all
  update_all-IsTold [] p t = t
  update_all-IsTold (r ∷ rs) p t =
      update_all-IsTold rs (on_update_battery_state zero_percent hundred number r p)
        (on_update-IsTold r p t)

  new_power-IsTold : IsTold (new_power zero_percent hundred number)
  unfolding lookup
  new_power-IsTold = record { state = inl (refl, refl); percent = inl (refl, refl) }

  on_update-takes :
      (s : ℤ) (d : D) (p : Power D)
      → let q =
          on_update_battery_state zero_percent hundred number
            (record { booted = true; state = some s; percentage = some d })
            p in
        (q.power_state ≡ s) × (q.battery_percent ≡ d)
  unfolding on_update_battery_state update_state update_percent
  on_update-takes s d p =
      let same = int_beq_iff p.power_state s in
      let same_percent = e.beq_iff p.battery_percent d in
      (ground (arith, same), ground (arith, same, same_percent))

  -- Whatever was read of the battery since the start: when the container has booted and a state other than
  -- -1 and a percentage other than 0 are read, then battery_charging and battery_percent are set to their
  -- values, whether they are sent now or were sent before.
  pub update_all_lem :
      (rs : List (Reading D)) (s : ℤ) (d : D)
      → s ≢ minus_one
      → d ≢ zero_percent
      → let p = update_all zero_percent hundred number rs (new_power zero_percent hundred number) in
        let q =
          on_update_battery_state zero_percent hundred number
            (record { booted = true; state = some s; percentage = some d })
            p in
        (lookup (codes "battery_charging") q.props ≡ some (charging s))
        × (lookup (codes "battery_percent") q.props ≡ some (number d))
  update_all_lem rs s d known some_percent =
      let r : Reading D = record { booted = true; state = some s; percentage = some d } in
      let p = update_all zero_percent hundred number rs (new_power zero_percent hundred number) in
      let t =
        on_update-IsTold r p
          (update_all-IsTold rs (new_power zero_percent hundred number) new_power-IsTold) in
      let (is_state, is_percent) = on_update-takes s d p in
      (
        elim (t.state) [
          | inl (unknown, nothing) ↦ absurd (known (sym is_state ∙ unknown))
          | inr told ↦ told ∙ ap (λ z. some (charging z)) is_state
        ],
        elim (t.percent) [
          | inl (unknown, nothing) ↦ absurd (some_percent (sym is_percent ∙ unknown))
          | inr told ↦ told ∙ ap (λ z. some (number z)) is_percent
        ],
      )
