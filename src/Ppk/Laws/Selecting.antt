-- ===== src/Ppk/Laws/Selecting.antt =====
-- The windows that the backlog selects are the first of the eligible ones.
use mathlib.Core.Path.{subst}
use slope_monitoring.Common.{
  ℕ, zero, suc, ◌≤◌, String, ◌≡◌, refl, sym, ap, ◌⊎◌, inl, inr, Bool, true, false, ◌&&◌, Option,
  List, [], ◌∷◌, All, length, length-take, take, leb, arith, Bool-cases,
}
use slope_monitoring.Common.Text.{codes}
use slope_monitoring.Errors.{ok, value_error, require, bind-ok, ok-injective}
use slope_monitoring.Blast.Values.{Value, Timestamp}
use slope_monitoring.Ppk.Backlog.{
  Window, JobRow, text_leb, key_leb, in_order, insert_window, sort_windows, is_eligible,
  eligible_of, select_windows,
}

text_leb_trans : (s t u : List ℕ) → text_leb s t ≡ true → text_leb t u ≡ true → text_leb s u ≡ true
unfolding text_leb
text_leb_trans [] t u h k = refl
text_leb_trans (c ∷ s) [] u h k = absurd (ground arith)
text_leb_trans (c ∷ s) (d ∷ t) [] h k = absurd (ground arith)
text_leb_trans (c ∷ s) (d ∷ t) (e ∷ u) h k = ground (arith, text_leb_trans s t u)

text_leb-total : (s t : List ℕ) → text_leb s t ≡ false → text_leb t s ≡ true
unfolding text_leb
text_leb-total [] t h = absurd (ground arith)
text_leb-total (c ∷ s) [] h = refl
text_leb-total (c ∷ s) (d ∷ t) h = ground (arith, text_leb-total s t)

in_order_trans :
    (newest : Bool) (a b c : Window)
    → in_order newest a b ≡ true
    → in_order newest b c ≡ true
    → in_order newest a c ≡ true
unfolding in_order key_leb
in_order_trans true a b c h k =
    ground (arith, text_leb_trans (codes c.rover) (codes b.rover) (codes a.rover))
in_order_trans false a b c h k =
    ground (arith, text_leb_trans (codes a.rover) (codes b.rover) (codes c.rover))

in_order-total :
    (newest : Bool) (a b : Window) → in_order newest a b ≡ false → in_order newest b a ≡ true
unfolding in_order key_leb
in_order-total true a b h = ground (arith, text_leb-total (codes b.rover) (codes a.rover))
in_order-total false a b h = ground (arith, text_leb-total (codes a.rover) (codes b.rover))

abbrev pub Sorted : Bool → List Window → Type 0
Sorted newest [] = Unit
Sorted newest (w ∷ ws) = All (λ v. in_order newest w v ≡ true) ws × Sorted newest ws

abbrev pub Among : Window → List Window → Type 0
Among w [] = ⊥
Among w (x ∷ xs) = (w ≡ x) ⊎ Among w xs

All-insert :
    (P : Window → Type 0) (newest : Bool) (w : Window) (ws : List Window)
    → P w
    → All P ws
    → All P (insert_window newest w ws)
unfolding insert_window
All-insert P newest w [] h hs = (h, tt)
All-insert P newest w (x ∷ xs) h hs = elim (Bool-cases (in_order newest w x)) [
  | inl e ↦ rw e (h, hs)
  | inr e ↦ rw e (hs.0, All-insert P newest w xs h hs.1)
]

after_head :
    (newest : Bool) (w x : Window) (xs : List Window)
    → in_order newest w x ≡ true
    → All (λ v. in_order newest x v ≡ true) xs
    → All (λ v. in_order newest w v ≡ true) xs
after_head newest w x [] h hs = tt
after_head newest w x (y ∷ ys) h hs =
    (in_order_trans newest w x y h hs.0, after_head newest w x ys h hs.1)

insert_window-Sorted :
    (newest : Bool) (w : Window) (ws : List Window)
    → Sorted newest ws
    → Sorted newest (insert_window newest w ws)
unfolding insert_window
insert_window-Sorted newest w [] h = (tt, tt)
insert_window-Sorted newest w (x ∷ xs) h = elim (Bool-cases (in_order newest w x)) [
  | inl e ↦ rw e ((e, after_head newest w x xs e h.0), h)
  | inr e ↦ rw e (
    All-insert (λ v. in_order newest x v ≡ true) newest w xs (in_order-total newest w x e) h.0,
    insert_window-Sorted newest w xs h.1,
  )
]

sort_windows-Sorted : (newest : Bool) (ws : List Window) → Sorted newest (sort_windows newest ws)
unfolding sort_windows
sort_windows-Sorted newest [] = tt
sort_windows-Sorted newest (w ∷ ws) =
    insert_window-Sorted newest w _ (sort_windows-Sorted newest ws)

Among-insert :
    (newest : Bool) (v w : Window) (ws : List Window)
    → (v ≡ w) ⊎ Among v ws
    → Among v (insert_window newest w ws)
unfolding insert_window
Among-insert newest v w [] (inl e) = inl e
Among-insert newest v w [] (inr h) = absurd h
Among-insert newest v w (x ∷ xs) h = elim (Bool-cases (in_order newest w x)) [
  | inl e ↦ rw e h
  | inr e ↦ rw e (elim h [
    | inl is ↦ inr (Among-insert newest v w xs (inl is))
    | inr (inl is) ↦ inl is
    | inr (inr later) ↦ inr (Among-insert newest v w xs (inr later))
  ])
]

Among-sort :
    (newest : Bool) (v : Window) (ws : List Window) → Among v ws → Among v (sort_windows newest ws)
unfolding sort_windows
Among-sort newest v [] h = h
Among-sort newest v (w ∷ ws) (inl e) = Among-insert newest v w (sort_windows newest ws) (inl e)
Among-sort newest v (w ∷ ws) (inr h) =
    Among-insert newest v w (sort_windows newest ws) (inr (Among-sort newest v ws h))

All-sort :
    (P : Window → Type 0) (newest : Bool) (ws : List Window)
    → All P ws
    → All P (sort_windows newest ws)
unfolding sort_windows
All-sort P newest [] h = tt
All-sort P newest (w ∷ ws) h =
    All-insert P newest w (sort_windows newest ws) h.0 (All-sort P newest ws h.1)

All-take : (P : Window → Type 0) (n : ℕ) (ws : List Window) → All P ws → All P (take n ws)
All-take P zero ws h = tt
All-take P (suc n) [] h = tt
All-take P (suc n) (w ∷ ws) h = (h.0, All-take P n ws h.1)

Sorted-take :
    (newest : Bool) (n : ℕ) (ws : List Window) → Sorted newest ws → Sorted newest (take n ws)
Sorted-take newest zero ws h = tt
Sorted-take newest (suc n) [] h = tt
Sorted-take newest (suc n) (w ∷ ws) h =
    (All-take (λ v. in_order newest w v ≡ true) n ws h.0, Sorted-take newest n ws h.1)

All-among : (P : Window → Type 0) (v : Window) (ws : List Window) → All P ws → Among v ws → P v
All-among P v [] h m = absurd m
All-among P v (w ∷ ws) h (inl e) = subst P (sym e) h.0
All-among P v (w ∷ ws) h (inr m) = All-among P v ws h.1 m

-- an item of a sorted list is among the first n, or n of them come before it
take_or_after :
    (newest : Bool) (n : ℕ) (v : Window) (ws : List Window)
    → Sorted newest ws
    → Among v ws
    → Among v (take n ws)
      ⊎ ((length (take n ws) ≡ n) × All (λ x. in_order newest x v ≡ true) (take n ws))
take_or_after newest zero v ws h m = inr (refl, tt)
take_or_after newest (suc n) v [] h m = absurd m
take_or_after newest (suc n) v (w ∷ ws) h (inl e) = inl (inl e)
take_or_after newest (suc n) v (w ∷ ws) h (inr m) = elim (take_or_after newest n v ws h.1 m) [
  | inl first ↦ inl (inr first)
  | inr (size, before) ↦
      inr (ap suc size, (All-among (λ x. in_order newest w x ≡ true) v ws h.0 m, before))
]

module _ (isoformat : ℕ → List ℕ) (fromisoformat : Value → Option Timestamp) (jobs : List JobRow)
    (solutions : List (String × ℕ)) (cooldowns : List (List ℕ × Value))
    (now max_failed_attempts : ℕ) where
  abbrev IsEligible : Window → Type 0
  IsEligible w =
      is_eligible isoformat fromisoformat jobs solutions cooldowns now max_failed_attempts w ≡ true

  eligible_of-IsEligible :
      (ws : List Window)
      → All IsEligible
          (eligible_of isoformat fromisoformat jobs solutions cooldowns now max_failed_attempts ws)
  unfolding eligible_of
  eligible_of-IsEligible [] = tt
  eligible_of-IsEligible (w ∷ ws) =
      elim (Bool-cases
        (is_eligible isoformat fromisoformat jobs solutions cooldowns now max_failed_attempts w)) [
          | inl e ↦ rw e (e, eligible_of-IsEligible ws)
          | inr e ↦ rw e (eligible_of-IsEligible ws)
        ]

  Among-eligible_of :
      (v : Window) (ws : List Window)
      → IsEligible v
      → Among v ws
      → Among v
          (eligible_of isoformat fromisoformat jobs solutions cooldowns now max_failed_attempts ws)
  unfolding eligible_of
  Among-eligible_of v [] h m = m
  Among-eligible_of v (w ∷ ws) h m =
      elim (Bool-cases
        (is_eligible isoformat fromisoformat jobs solutions cooldowns now max_failed_attempts w)) [
          | inl e ↦
              rw e (elim m [ inl is ↦ inl is | inr later ↦ inr (Among-eligible_of v ws h later) ])
          | inr e ↦ rw e (elim m [
            | inl is ↦ absurd (
                ground (
                  arith,
                  ap
                      (is_eligible isoformat fromisoformat jobs solutions cooldowns now
                        max_failed_attempts)
                      is,
                ))
            | inr later ↦ Among-eligible_of v ws h later
          ])
        ]

  -- The selection is at most three windows, as many as allowed, all of them eligible and in the order
  -- asked for.
  select_windows-Sorted :
      (candidates : List Window) (limit : ℕ) (newest_first : Bool) {selected : List Window}
      → select_windows isoformat fromisoformat candidates jobs solutions cooldowns now limit
          max_failed_attempts newest_first
        ≡ ok selected
      → (limit ≤ 3)
        × (length selected ≤ limit)
        × All IsEligible selected
        × Sorted newest_first selected
  unfolding select_windows
  select_windows-Sorted candidates limit newest_first {selected} h =
      let (u, h0, h1) = bind-ok (require (leb 1 limit && leb limit 3) value_error) h in
      let eligible =
        eligible_of isoformat fromisoformat jobs solutions cooldowns now max_failed_attempts
          candidates in
      let sorted = sort_windows newest_first eligible in
      let is : take limit sorted ≡ selected = ok-injective h1 in
      (
        ground (arith, h0),
        omega (arith, length-take limit sorted, ap length is),
        subst (All IsEligible) is (
            All-take IsEligible limit sorted
              (All-sort IsEligible newest_first eligible (eligible_of-IsEligible candidates))),
        subst (Sorted newest_first) is
            (Sorted-take newest_first limit sorted (sort_windows-Sorted newest_first eligible)),
      )

  -- The selection takes the first windows: an eligible candidate that is not selected comes, in the
  -- order asked for, after as many selected ones as were allowed.
  pub select_windows-first :
      (candidates : List Window) (limit : ℕ) (newest_first : Bool) {selected : List Window}
      (v : Window)
      → select_windows isoformat fromisoformat candidates jobs solutions cooldowns now limit
          max_failed_attempts newest_first
        ≡ ok selected
      → Among v candidates
      → IsEligible v
      → Among v selected
        ⊎ ((length selected ≡ limit) × All (λ x. in_order newest_first x v ≡ true) selected)
  unfolding select_windows
  select_windows-first candidates limit newest_first {selected} v h m e =
      let (u, h0, h1) = bind-ok (require (leb 1 limit && leb limit 3) value_error) h in
      let eligible =
        eligible_of isoformat fromisoformat jobs solutions cooldowns now max_failed_attempts
          candidates in
      let sorted = sort_windows newest_first eligible in
      subst
        (λ ws. Among v ws ⊎ ((length ws ≡ limit) × All (λ x. in_order newest_first x v ≡ true) ws))
        (ok-injective h1)
        (take_or_after newest_first limit v sorted (sort_windows-Sorted newest_first eligible)
          (Among-sort newest_first v eligible (Among-eligible_of v candidates e m)))
