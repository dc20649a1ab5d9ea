-- ===== src/Policy/Victims/Laws.antt =====
-- The choice of victims: who is drained, and that it is enough.
use cede_grid.Common.{
  ℕ, ◌≤◌, ◌≡◌, refl, Bool, true, false, ◌&&◌, ◌||◌, ◌⊎◌, inl, inr, List, [], ◌∷◌, String, StringMap,
  amount, any, filter, arith, Bool-cases, map, ◌++◌, ltb, ap, sym,
}
use mathlib.Core.List.{Memᴰ, Perm}
use mathlib.Core.List.Perm
use mathlib.Core.List.Memᴰ
use cede_grid.Model.Resources.{Resources}
use cede_grid.Model.Snapshot.{Allocation, PolicyInput, is_draining}
use cede_grid.Policy.Amounts.{subtract_resources, contributes_to_excess}
use cede_grid.Policy.Amounts.Laws.{subtract_gpus-le}
use cede_grid.Policy.Charges.{charge_at}
use cede_grid.Policy.Victims.{
  choose_victims, candidates, is_candidate, insert_candidate, sort_candidates, goes_first,
  after_drains,
}

-- One reading of the resources is at most another, in every dimension.
pub record Within (a b : Resources) : Type 0 where
  pub cpu : a.cpu_millicores ≤ b.cpu_millicores
  pub ram : a.ram_mib ≤ b.ram_mib
  pub gpu : (j : String) → amount j a.gpu_memory_mib ≤ amount j b.gpu_memory_mib

Within-refl : (a : Resources) → Within a a
Within-refl a = record { cpu = omega arith; ram = omega arith; gpu = λ j. omega arith }

subtract_resources-Within :
    (total value : Resources) {rest : Resources}
    → Within rest (subtract_resources total value)
    → Within rest total
unfolding subtract_resources
subtract_resources-Within total value w = record {
  cpu = omega (arith, w.cpu);
  ram = omega (arith, w.ram);
  gpu = λ j. omega (arith, w.gpu j, subtract_gpus-le j total.gpu_memory_mib value.gpu_memory_mib);
}

any_excess_mono :
    (a b budget charge : StringMap ℕ)
    → ((j : String) → amount j a ≤ amount j b)
    → any (λ g. ltb 0 g.1 && ltb (amount g.0 budget) (amount g.0 a)) charge ≡ true
    → any (λ g. ltb 0 g.1 && ltb (amount g.0 budget) (amount g.0 b)) charge ≡ true
any_excess_mono a b budget [] w h = h
any_excess_mono a b budget (g ∷ rest) w h = ground (arith, w g.0, any_excess_mono a b budget rest w)

-- What contributes to an excess contributes to a larger one.
contributes_mono :
    (a b budget charge : Resources)
    → Within a b
    → contributes_to_excess a budget charge ≡ true
    → contributes_to_excess b budget charge ≡ true
unfolding contributes_to_excess
contributes_mono a b budget charge w h = ground (
  arith,
  w.cpu,
  w.ram,
  any_excess_mono a.gpu_memory_mib b.gpu_memory_mib budget.gpu_memory_mib charge.gpu_memory_mib
      w.gpu,
)

module _ (drain : Bool) (charges : StringMap Resources) (budget : Resources) where
  -- Draining only ever lowers what remains.
  choose_victims-Within :
      (remaining : Resources) (cs : List Allocation)
      → Within (choose_victims drain charges budget remaining cs).0 remaining
  unfolding choose_victims
  choose_victims-Within remaining [] = Within-refl remaining
  choose_victims-Within remaining (a ∷ rest) =
      elim (Bool-cases (drain || contributes_to_excess remaining budget (charge_at a.id charges))) [
        | inl t ↦ rw t (
            subtract_resources-Within remaining (charge_at a.id charges)
              (choose_victims-Within (subtract_resources remaining (charge_at a.id charges)) rest))
        | inr t ↦ rw t (choose_victims-Within remaining rest)
      ]

  -- A test that fails at the start fails on what remains at the end.
  stays_enough :
      (remaining left charge : Resources)
      → Within left remaining
      → (drain || contributes_to_excess remaining budget charge) ≡ false
      → contributes_to_excess left budget charge ≡ false
  stays_enough remaining left charge w t =
      ground (arith, contributes_mono left remaining budget charge w)

  -- Every candidate is drained, or its charge contributes to no excess of what remains.
  pub choose_victims_enough :
      (remaining : Resources) (cs : List Allocation) (a : Allocation)
      → Memᴰ a cs
      → Memᴰ a.id (choose_victims drain charges budget remaining cs).1
        ⊎ (contributes_to_excess
              (choose_victims drain charges budget remaining cs).0
              budget
              (charge_at a.id charges)
            ≡ false)
  unfolding choose_victims
  choose_victims_enough remaining [] a m = absurd (Memᴰ.not-nil m)
  choose_victims_enough remaining (b ∷ rest) a m =
      elim (Bool-cases (drain || contributes_to_excess remaining budget (charge_at b.id charges))) [
        | inl t ↦ rw t (elim (Memᴰ.cases_cons m) [
          | inl p ↦ inl (Memᴰ.head (ap (λ (x : Allocation). x.id) p))
          | inr k ↦
              elim (choose_victims_enough (subtract_resources remaining (charge_at b.id charges))
                rest a k) [ inl d ↦ inl (Memᴰ.tail d) | inr e ↦ inr e ]
        ])
        | inr t ↦ rw t (elim (Memᴰ.cases_cons m) [
          | inl p ↦ inr (
              rw p (
                stays_enough remaining _ (charge_at b.id charges)
                  (choose_victims-Within remaining rest) t))
          | inr k ↦ choose_victims_enough remaining rest a k
        ])
      ]

  -- Whoever is drained is one of the candidates.
  pub choose_victims-mem :
      (remaining : Resources) (cs : List Allocation) (id : String)
      → Memᴰ id (choose_victims drain charges budget remaining cs).1
      → (a : Allocation) × Memᴰ a cs × (a.id ≡ id)
  unfolding choose_victims
  choose_victims-mem remaining [] id m = absurd (Memᴰ.not-nil m)
  choose_victims-mem remaining (b ∷ rest) id m =
      elim (Bool-cases (drain || contributes_to_excess remaining budget (charge_at b.id charges))) [
        | inl t ↦ elim (Memᴰ.cases_cons (rw t at m)) [
          | inl p ↦ (b, Memᴰ.head refl, sym p)
          | inr k ↦
              let (a, mem, e) =
                choose_victims-mem (subtract_resources remaining (charge_at b.id charges)) rest id
                  k in
              (a, Memᴰ.tail mem, e)
        ]
        | inr t ↦
            let (a, mem, e) = choose_victims-mem remaining rest id (rw t at m) in
            (a, Memᴰ.tail mem, e)
      ]

-- What is left of an amount after the charges of some allocations are released.
unfoldable pub release : StringMap Resources → Resources → List String → Resources
release charges left [] = left
release charges left (id ∷ ids) =
    release charges (subtract_resources left (charge_at id charges)) ids

pub release-append :
    (charges : StringMap Resources) (left : Resources) (xs ys : List String)
    → release charges left (xs ++ ys) ≡ release charges (release charges left xs) ys
unfolding release
release-append charges left [] ys = refl
release-append charges left (x ∷ xs) ys =
    release-append charges (subtract_resources left (charge_at x charges)) xs ys

-- What remains after the choice is what the chosen leave.
pub choose_victims-release :
    (drain : Bool) (charges : StringMap Resources) (budget remaining : Resources)
    (cs : List Allocation)
    → (choose_victims drain charges budget remaining cs).0
      ≡ release charges remaining (choose_victims drain charges budget remaining cs).1
unfolding choose_victims release
choose_victims-release drain charges budget remaining [] = refl
choose_victims-release drain charges budget remaining (a ∷ rest) =
    elim (Bool-cases (drain || contributes_to_excess remaining budget (charge_at a.id charges))) [
      | inl t ↦ rw t (
          choose_victims-release drain charges budget
            (subtract_resources remaining (charge_at a.id charges)) rest)
      | inr t ↦ rw t (choose_victims-release drain charges budget remaining rest)
    ]

-- The allocations that are draining already.
pub draining_ids : List Allocation → List String
draining_ids allocations =
    map (λ (a : Allocation). a.id) (filter (λ (a : Allocation). is_draining a.phase) allocations)

pub after_drains-release :
    (charges : StringMap Resources) (remaining : Resources) (allocations : List Allocation)
    → after_drains charges remaining allocations
      ≡ release charges remaining (draining_ids allocations)
unfolding after_drains release draining_ids
after_drains-release charges remaining [] = refl
after_drains-release charges remaining (a ∷ rest) = elim (Bool-cases (is_draining a.phase)) [
  | inl t ↦
      rw (t, after_drains)
        (after_drains-release charges (subtract_resources remaining (charge_at a.id charges)) rest)
  | inr t ↦ rw (t, after_drains) (after_drains-release charges remaining rest)
]

-- Under a drain every candidate is drained.
pub choose_victims_all :
    (charges : StringMap Resources) (budget remaining : Resources) (cs : List Allocation)
    → (choose_victims true charges budget remaining cs).1 ≡ map (λ (a : Allocation). a.id) cs
unfolding choose_victims
choose_victims_all charges budget remaining [] = refl
choose_victims_all charges budget remaining (a ∷ rest) =
    ap (λ (ids : List String). a.id ∷ ids)
      (choose_victims_all charges budget (subtract_resources remaining (charge_at a.id charges))
        rest)

insert_candidate-perm :
    (a : Allocation) (cs : List Allocation) → Perm (insert_candidate a cs) (a ∷ cs)
unfolding insert_candidate
insert_candidate-perm a [] = Perm.refl (a ∷ [])
insert_candidate-perm a (b ∷ bs) = elim (Bool-cases (goes_first a b)) [
  | inl t ↦ rw t (Perm.refl (a ∷ b ∷ bs))
  | inr t ↦ rw t (Perm.trans (Perm.cons b (insert_candidate-perm a bs)) (Perm.swap _ _ bs))
]

sort_candidates-perm : (cs : List Allocation) → Perm (sort_candidates cs) cs
unfolding sort_candidates
sort_candidates-perm [] = Perm.refl []
sort_candidates-perm (a ∷ rest) =
    Perm.trans (insert_candidate-perm a (sort_candidates rest))
      (Perm.cons a (sort_candidates-perm rest))

-- Sorting loses and adds nobody.
pub candidates-perm :
    (input : PolicyInput)
    → Perm (candidates input) (filter (is_candidate input.explicit_drain) input.allocations)
unfolding candidates
candidates-perm input = sort_candidates-perm _

insert_candidate-mem :
    (a b : Allocation) (cs : List Allocation) → Memᴰ a (insert_candidate b cs) → (a ≡ b) ⊎ Memᴰ a cs
unfolding insert_candidate
insert_candidate-mem a b [] m = Memᴰ.cases_cons m
insert_candidate-mem a b (c ∷ cs) m = elim (Bool-cases (goes_first b c)) [
  | inl t ↦ Memᴰ.cases_cons (rw t at m)
  | inr t ↦ elim (Memᴰ.cases_cons (rw t at m)) [
    | inl p ↦ inr (Memᴰ.head p)
    | inr k ↦ elim (insert_candidate-mem a b cs k) [ inl p ↦ inl p | inr q ↦ inr (Memᴰ.tail q) ]
  ]
]

mem-insert_candidate :
    (a b : Allocation) (cs : List Allocation) → (a ≡ b) ⊎ Memᴰ a cs → Memᴰ a (insert_candidate b cs)
unfolding insert_candidate
mem-insert_candidate a b [] (inl p) = Memᴰ.head p
mem-insert_candidate a b [] (inr k) = absurd (Memᴰ.not-nil k)
mem-insert_candidate a b (c ∷ cs) m = elim (Bool-cases (goes_first b c)) [
  | inl t ↦ rw t (elim m [ inl p ↦ Memᴰ.head p | inr k ↦ Memᴰ.tail k ])
  | inr t ↦ rw t (elim m [
    | inl p ↦ Memᴰ.tail (mem-insert_candidate a b cs (inl p))
    | inr k ↦ elim (Memᴰ.cases_cons k) [
      | inl p ↦ Memᴰ.head p
      | inr q ↦ Memᴰ.tail (mem-insert_candidate a b cs (inr q))
    ]
  ])
]

sort_filter-mem :
    (p : Allocation → Bool) (a : Allocation) (cs : List Allocation)
    → Memᴰ a (sort_candidates (filter p cs))
    → Memᴰ a cs × (p a ≡ true)
unfolding sort_candidates
sort_filter-mem p a [] m = absurd (Memᴰ.not-nil m)
sort_filter-mem p a (c ∷ cs) m = elim (Bool-cases (p c)) [
  | inl t ↦ elim (insert_candidate-mem a c _ (rw t at m)) [
    | inl e ↦ (Memᴰ.head e, rw e t)
    | inr k ↦ let (q, r) = sort_filter-mem p a cs k in (Memᴰ.tail q, r)
  ]
  | inr t ↦ let (q, r) = sort_filter-mem p a cs (rw t at m) in (Memᴰ.tail q, r)
]

mem-sort_filter :
    (p : Allocation → Bool) (a : Allocation) (cs : List Allocation)
    → Memᴰ a cs
    → p a ≡ true
    → Memᴰ a (sort_candidates (filter p cs))
unfolding sort_candidates
mem-sort_filter p a [] m h = absurd (Memᴰ.not-nil m)
mem-sort_filter p a (c ∷ cs) m h = elim (Bool-cases (p c)) [
  | inl t ↦ rw t (
      mem-insert_candidate a c _
        (elim (Memᴰ.cases_cons m) [ inl e ↦ inl e | inr k ↦ inr (mem-sort_filter p a cs k h) ]))
  | inr t ↦
      rw t (elim (Memᴰ.cases_cons m) [ inl e ↦ cc (ap p e) | inr k ↦ mem-sort_filter p a cs k h ])
]

-- The candidates are the allocations that may be drained, and no others.
pub candidates-mem :
    (input : PolicyInput) (a : Allocation)
    → Memᴰ a (candidates input)
    → Memᴰ a input.allocations × (is_candidate input.explicit_drain a ≡ true)
unfolding candidates
candidates-mem input a m = sort_filter-mem (is_candidate input.explicit_drain) a input.allocations m

pub mem-candidates :
    (input : PolicyInput) (a : Allocation)
    → Memᴰ a input.allocations
    → is_candidate input.explicit_drain a ≡ true
    → Memᴰ a (candidates input)
unfolding candidates
mem-candidates input a m h =
    mem-sort_filter (is_candidate input.explicit_drain) a input.allocations m h
