-- ===== src/Policy/Launch.antt =====
-- src/policy.rs: what the checks of a GPU launch establish.
use cede_grid.Common.{
  ℕ, ◌≡◌, ap, sym, ◌∙◌, none, Option, refl, Bool, true, false, ◌&&◌, ◌||◌, not, some, List, [], ◌∷◌,
  String, ok, arith, is_some_and, all, filter, length, find, is_empty, contains, to_set, get, keys,
  nat_eq, ensure-eq-ok, >>=-eq-ok, context-eq-ok, context, ensure, eq_iff, ℕ_eq, ◌==◌, String_eq,
  ltb, is_blank, Bool-cases, inl, inr, and-eq-true, Option-cases, StringMap,
}
use mathlib.Core.List.{Memᴰ}
use mathlib.Core.List.Memᴰ
use cede_grid.Model.Resources.{Resources}
use cede_grid.Model.Snapshot.{
  Snapshot, GpuSnapshot, GpuObservation, is_insufficient, is_conservative, is_best_effort,
  GpuExecutionCapability, conservative_non_sharing, is_idle, is_available,
  ExternalGpuProcessIdentity, ExternalGpuProcessIdentity_eq,
}
use cede_grid.Execution.{AllocationClass}
use cede_grid.Config.{Config, GpuExecutionMode, is_mode_contention_aware}
use cede_grid.Policy.Amounts.{PolicyError}
use cede_grid.Policy.Capability.{
  has_basics, is_fresh, capability_of_mode, validate_gpu_launch_contract, validate_launch_gpus,
  validate_launch_gpu, effective_gpu_capability, is_guaranteed, best_effort_identity_contract,
  identities_match,
}

-- The ways in which a device may be used: it is shared with the processes that the configuration
-- authorises; or its processes are sampled afresh and it is idle; or no other process holds it and it
-- is idle; or, in the automatic mode alone, it was never sampled and it is idle.
pub data Use (config : Config) (at : ℕ) (gpu : GpuSnapshot) : Type 0 where
  occupied :
      config.gpu.execution_mode ≡ GpuExecutionMode.best_effort_occupied
      → best_effort_identity_contract config at gpu ≡ true
      → Use config at gpu
  sampled :
      (o : GpuObservation)
      → gpu.observation ≡ some o
      → is_fresh config o ≡ true
      → is_idle gpu.external_compute ≡ true
      → Use config at gpu
  alone :
      gpu.external_process_ids ≡ some [] → is_idle gpu.external_compute ≡ true → Use config at gpu
  unsampled :
      config.gpu.execution_mode ≡ GpuExecutionMode.auto
      → gpu.observation ≡ none
      → is_idle gpu.external_compute ≡ true
      → Use config at gpu

-- A device of the snapshot that a launch may use: its memory and its processes are known, what was
-- observed of it belongs to the snapshot, and there is a way to use it.
pub record IsLaunchable (config : Config) (snapshot : Snapshot) (uuid : String) : Type 0 where
  pub gpu : GpuSnapshot
  pub found : find (λ (g : GpuSnapshot). g.uuid == uuid) snapshot.gpus ≡ some gpu
  pub known : has_basics gpu ≡ true
  pub current :
      (o : GpuObservation)
      → gpu.observation ≡ some o
      → (o.observed_at_unix_ms ≡ snapshot.observed_at_unix_ms)
        × (is_insufficient o.capability ≡ false)
  pub use_of : Use config snapshot.observed_at_unix_ms gpu

-- The three tests of the loop, on what the device is capable of.
Passes : GpuSnapshot → Option GpuExecutionCapability → Type 0
Passes gpu c =
    (is_some_and c is_insufficient ≡ false)
    × (not (is_some_and c is_conservative)
          || is_some_and gpu.external_process_ids (λ pids. is_empty pids)
        ≡ true)
    × (is_some_and c is_best_effort || is_idle gpu.external_compute ≡ true)

Passes-alone :
    (config : Config) (at : ℕ) (gpu : GpuSnapshot)
    → Passes gpu (some conservative_non_sharing)
    → Use config at gpu
unfolding Passes
Passes-alone config at gpu p = elim (Option-cases gpu.external_process_ids) [
  | inl n ↦ cc (p.1, n)
  | inr (pids, e) ↦ go pids e (rw e at p.1)
]
  where
    go :
        (pids : List ℕ)
        → gpu.external_process_ids ≡ some pids
        → is_empty pids ≡ true
        → Use config at gpu
    go [] e h = alone e (ground (arith, p.2))
    go (x ∷ xs) e h = cc (h)

Passes-mode :
    (config : Config) (at : ℕ) (gpu : GpuSnapshot) (mode : GpuExecutionMode)
    → config.gpu.execution_mode ≡ mode
    → Passes gpu (capability_of_mode config at gpu mode)
    → Use config at gpu
unfolding capability_of_mode Passes
Passes-mode config at gpu GpuExecutionMode.auto e p = elim (Option-cases gpu.observation) [
  | inl n ↦ unsampled e n (ground (arith, rw n at p.2))
  | inr (o, s) ↦ elim (Bool-cases (is_fresh config o)) [
    | inl f ↦ sampled o s f (rw (s, f) at p.2)
    | inr f ↦ Passes-alone config at gpu (rw (s, f) at p)
  ]
]
Passes-mode config at gpu GpuExecutionMode.contention_aware e p =
    elim (Option-cases gpu.observation) [
      | inl n ↦ cc (rw n at p.0)
      | inr (o, s) ↦ elim (Bool-cases (is_fresh config o)) [
        | inl f ↦ sampled o s f (rw (s, f) at p.2)
        | inr f ↦ cc (rw (s, f) at p.0)
      ]
    ]
Passes-mode config at gpu GpuExecutionMode.conservative_non_sharing e p =
    Passes-alone config at gpu p
Passes-mode config at gpu GpuExecutionMode.best_effort_occupied e p =
    elim (Bool-cases (best_effort_identity_contract config at gpu)) [
      | inl y ↦ occupied e y
      | inr n ↦ cc (rw n at p.0)
    ]

Passes-usable :
    (config : Config) (at : ℕ) (gpu : GpuSnapshot)
    → Passes gpu (effective_gpu_capability config at gpu)
    → (has_basics gpu ≡ true)
      × ((o : GpuObservation)
          → gpu.observation ≡ some o
          → (o.observed_at_unix_ms ≡ at) × (is_insufficient o.capability ≡ false))
      × Use config at gpu
unfolding effective_gpu_capability Passes
Passes-usable config at gpu p =
    let stale : Bool =
      not (has_basics gpu)
      || is_some_and gpu.observation
          (λ o. not (o.observed_at_unix_ms == at) || is_insufficient o.capability) in
    elim (Bool-cases stale) [
      | inl y ↦ cc (rw y at p.0)
      | inr n ↦ (
        ground (arith, n),
        λ o e. let m = rw e at n in (ground (arith, m), ground (arith, m)),
        Passes-mode config at gpu config.gpu.execution_mode refl (rw n at p),
      )
    ]

validate_launch_gpu-IsLaunchable :
    (config : Config) (snapshot : Snapshot) (uuid : String)
    → validate_launch_gpu config snapshot uuid ≡ ok tt
    → IsLaunchable config snapshot uuid
unfolding validate_launch_gpu Passes
validate_launch_gpu-IsLaunchable config snapshot uuid h =
    let (gpu, f, h1) =
      >>=-eq-ok
        (context (find (λ (g : GpuSnapshot). g.uuid == uuid) snapshot.gpus) PolicyError.gpu_absent)
        _ h in
    let c = effective_gpu_capability config snapshot.observed_at_unix_ms gpu in
    let (a, h2) =
      ensure-eq-ok (not (is_some_and c is_insufficient)) PolicyError.gpu_unobserved _ h1 in
    let (b, h3) =
      ensure-eq-ok
        (not (is_some_and c is_conservative)
          || is_some_and gpu.external_process_ids (λ pids. is_empty pids))
        PolicyError.gpu_shared
        (ensure (is_some_and c is_best_effort || is_idle gpu.external_compute) PolicyError.gpu_busy)
        h2 in
    let at = snapshot.observed_at_unix_ms in
    let p : Passes gpu (effective_gpu_capability config at gpu) =
      (ground (arith, a), b, ground (arith, h3)) in
    record {
      gpu = gpu;
      found = context-eq-ok (find (λ (g : GpuSnapshot). g.uuid == uuid) snapshot.gpus) _ f;
      known = (Passes-usable config at gpu p).0;
      current = (Passes-usable config at gpu p).1;
      use_of = (Passes-usable config at gpu p).2;
    }

launch_gpus :
    (config : Config) (snapshot : Snapshot) (uuids : List String) (uuid : String)
    → validate_launch_gpus config snapshot uuids ≡ ok tt
    → contains uuids uuid ≡ true
    → IsLaunchable config snapshot uuid
unfolding validate_launch_gpus
launch_gpus config snapshot [] uuid h c = cc
launch_gpus config snapshot (u ∷ rest) uuid h c =
    let (_, a, b) = >>=-eq-ok (validate_launch_gpu config snapshot u) _ h in
    elim (Bool-cases (u == uuid)) [
      | inl y ↦ rw (← (eq_iff u uuid).0 y) (validate_launch_gpu-IsLaunchable config snapshot u a)
      | inr n ↦ launch_gpus config snapshot rest uuid b (ground (arith, c, n))
    ]

keys-nonempty :
    (m : StringMap ℕ) (uuid : String) → contains (keys m) uuid ≡ true → is_empty m ≡ false
keys-nonempty [] uuid h = cc
keys-nonempty (g ∷ m) uuid h = refl

-- A launch that passes the contract names only devices of an available inventory, whose memory and
-- processes are known and whose observation, if any, is the snapshot's and sufficient. Each of them
-- is shared with authorised processes under the best-effort mode, or is idle and sampled afresh, free
-- of other processes, or never sampled in the automatic mode. A guaranteed launch passes only in the
-- contention-aware mode.
pub launch_contract_sound :
    (config : Config) (snapshot : Snapshot) (resources : Resources) (class : AllocationClass)
    → validate_gpu_launch_contract config snapshot resources class ≡ ok tt
    → (uuid : String) → contains (keys resources.gpu_memory_mib) uuid ≡ true
    → IsLaunchable config snapshot uuid
      × (is_available snapshot.gpu_inventory ≡ true)
      × (not (is_guaranteed class) || is_mode_contention_aware config.gpu.execution_mode ≡ true)
unfolding validate_gpu_launch_contract
launch_contract_sound config snapshot resources class h uuid c =
    let (g, h1) =
      ensure-eq-ok (not (is_guaranteed class) || is_mode_contention_aware config.gpu.execution_mode)
        PolicyError.guaranteed_gpu _
        (rw (keys-nonempty resources.gpu_memory_mib uuid c, validate_gpu_launch_contract) at h) in
    let (i, h2) =
      ensure-eq-ok (is_available snapshot.gpu_inventory) PolicyError.inventory_unavailable
        (validate_launch_gpus config snapshot (keys resources.gpu_memory_mib)) h1 in
    (launch_gpus config snapshot (keys resources.gpu_memory_mib) uuid h2 c, i, g)

-- the elements of a set are those of its list
contains-to_set :
    (pids : List ℕ) (pid : ℕ) → contains pids pid ≡ true → contains (to_set pids) pid ≡ true
contains-to_set [] pid h = cc
contains-to_set (p ∷ pids) pid h = ground (arith, contains-to_set pids pid)

all-elem :
    (p : ℕ → Bool) (xs : List ℕ) (x : ℕ) → all p xs ≡ true → contains xs x ≡ true → p x ≡ true
all-elem p [] x a c = cc
all-elem p (y ∷ ys) x a c = ground (arith, all-elem p ys x)

none-passes :
    {A : Type 0} (p : A → Bool) (xs : List A) (x : A)
    → nat_eq (length (filter p xs)) 0 ≡ true
    → Memᴰ x xs
    → p x ≡ false
none-passes p [] x n m = absurd (Memᴰ.not-nil m)
none-passes p (y ∷ ys) x n m = elim (Bool-cases (p y)) [
  | inl h ↦ ground (arith, rw h at n)
  | inr h ↦ elim (Memᴰ.cases_cons m) [
    | inl e ↦ ap p e ∙ h
    | inr k ↦ none-passes p ys x (rw h at n) k
  ]
]

-- Where one element passes, it is the only one.
one-passes :
    {A : Type 0} (p : A → Bool) (xs : List A) (x y : A)
    → nat_eq (length (filter p xs)) 1 ≡ true
    → Memᴰ x xs
    → Memᴰ y xs
    → p x ≡ true
    → p y ≡ true
    → x ≡ y
one-passes p [] x y n m k px py = absurd (Memᴰ.not-nil m)
one-passes p (z ∷ zs) x y n m k px py = elim (Bool-cases (p z)) [
  | inl h ↦
      let no : nat_eq (length (filter p zs)) 0 ≡ true = ground (arith, rw h at n) in
      elim (Memᴰ.cases_cons m) [
        | inr q ↦ cc (none-passes p zs x no q, px)
        | inl e ↦ elim (Memᴰ.cases_cons k) [
          | inr q ↦ cc (none-passes p zs y no q, py)
          | inl g ↦ e ∙ sym g
        ]
      ]
  | inr h ↦ elim (Memᴰ.cases_cons m) [
    | inl e ↦ cc (ap p e, h, px)
    | inr q ↦ elim (Memᴰ.cases_cons k) [
      | inl g ↦ cc (ap p g, h, py)
      | inr r ↦ one-passes p zs x y (rw h at n) q r px py
    ]
  ]
]

-- The one verified identity of a process, which is authorised as a whole.
pub record IsAuthorised (allowed verified : List ExternalGpuProcessIdentity) (pid : ℕ)
    : Type 0 where
  pub identity : ExternalGpuProcessIdentity
  pub same : identity.pid ≡ pid
  pub verifies : Memᴰ identity verified
  pub sole : (v : ExternalGpuProcessIdentity) → Memᴰ v verified → v.pid ≡ pid → v ≡ identity
  pub listed :
      (a : ExternalGpuProcessIdentity) × Memᴰ a allowed
      × (a.pid ≡ pid)
      × (a.boot_id ≡ identity.boot_id)
      × (a.start_ticks ≡ identity.start_ticks)
      × (a.uid ≡ identity.uid)

contains-listed :
    (allowed : List ExternalGpuProcessIdentity) (v : ExternalGpuProcessIdentity)
    → contains allowed v ≡ true
    → (a : ExternalGpuProcessIdentity) × Memᴰ a allowed
      × (a.pid ≡ v.pid)
      × (a.boot_id ≡ v.boot_id)
      × (a.start_ticks ≡ v.start_ticks)
      × (a.uid ≡ v.uid)
contains-listed [] v h = cc
contains-listed (x ∷ rest) v h = elim (Bool-cases (x == v)) [
  | inl y ↦ (
    x,
    Memᴰ.head refl,
    ground (arith, y),
    ground (arith, y, eq_iff x.boot_id v.boot_id),
    ground (arith, y),
    ground (arith, y),
  )
  | inr n ↦
      let (a, m, p, b, s, u) = contains-listed rest v (ground (arith, h, n)) in
      (a, Memᴰ.tail m, p, b, s, u)
]

-- Some verified identity has the process ID.
some-verified :
    (allowed verified : List ExternalGpuProcessIdentity) (pid : ℕ)
    → nat_eq (length (filter (λ (i : ExternalGpuProcessIdentity). i.pid == pid) verified)) 1 ≡ true
    → all
        (λ (i : ExternalGpuProcessIdentity).
          ltb 0 i.pid && ltb 0 i.start_ticks && not (is_blank i.boot_id) && contains allowed i)
        verified
      ≡ true
    → (v : ExternalGpuProcessIdentity) × Memᴰ v verified
      × ((v.pid == pid) ≡ true)
      × (contains allowed v ≡ true)
some-verified allowed [] pid n a = cc
some-verified allowed (v ∷ rest) pid n a = elim (Bool-cases (v.pid == pid)) [
  | inl y ↦ (v, Memᴰ.head refl, y, ground arith)
  | inr k ↦
      let (w, m, e, c) = some-verified allowed rest pid (rw k at n) (ground (arith, a)) in
      (w, Memᴰ.tail m, e, c)
]

authorised :
    (allowed verified : List ExternalGpuProcessIdentity) (pid : ℕ)
    → nat_eq (length (filter (λ (i : ExternalGpuProcessIdentity). i.pid == pid) verified)) 1 ≡ true
    → all
        (λ (i : ExternalGpuProcessIdentity).
          ltb 0 i.pid && ltb 0 i.start_ticks && not (is_blank i.boot_id) && contains allowed i)
        verified
      ≡ true
    → IsAuthorised allowed verified pid
authorised allowed verified pid n a =
    let (v, m, e, c) = some-verified allowed verified pid n a in
    let same : v.pid ≡ pid = ground (arith, e) in
    let (x, k, p, b, s, u) = contains-listed allowed v c in
    record {
      identity = v;
      same = same;
      verifies = m;
      sole = λ w q h.
          one-passes (λ (i : ExternalGpuProcessIdentity). i.pid == pid) verified w v n q m
            (ground (arith, h)) e;
      listed = (x, k, p ∙ same, b, s, u);
    }

match-IsAuthorised :
    (allowed verified : List ExternalGpuProcessIdentity) (pids : List ℕ) (pid : ℕ)
    → identities_match allowed verified pids ≡ true
    → contains pids pid ≡ true
    → IsAuthorised allowed verified pid
unfolding identities_match
match-IsAuthorised allowed verified pids pid h c =
    let ids =
      all
        (λ p. nat_eq (length (filter (λ (i : ExternalGpuProcessIdentity). i.pid == p) verified)) 1)
        (to_set pids) in
    let authorise =
      all
        (λ (i : ExternalGpuProcessIdentity).
          ltb 0 i.pid && ltb 0 i.start_ticks && not (is_blank i.boot_id) && contains allowed i)
        verified in
    let once : ids ≡ true = ground (arith, h) in
    let listed : authorise ≡ true = ground (arith, h) in
    authorised allowed verified pid
      (all-elem
        (λ p. nat_eq (length (filter (λ (i : ExternalGpuProcessIdentity). i.pid == p) verified)) 1)
        (to_set pids) pid once (contains-to_set pids pid c))
      listed

-- Where the best-effort contract holds, the observation is that of the snapshot, and every external
-- process of the device has exactly one verified identity, whose process ID, boot, start time and
-- user are together those of one identity that the configuration authorises for the device.
pub best_effort_sound :
    (config : Config) (observed_at : ℕ) (gpu : GpuSnapshot) (o : GpuObservation)
    (allowed verified : List ExternalGpuProcessIdentity) (pids : List ℕ)
    → best_effort_identity_contract config observed_at gpu ≡ true
    → get gpu.uuid config.gpu.best_effort_external_processes ≡ some allowed
    → gpu.observation ≡ some o
    → o.best_effort_external_processes ≡ some verified
    → gpu.external_process_ids ≡ some pids
    → (pid : ℕ) → contains pids pid ≡ true
    → (o.observed_at_unix_ms ≡ observed_at) × IsAuthorised allowed verified pid
unfolding best_effort_identity_contract
best_effort_sound config observed_at gpu o allowed verified pids h a e v p pid c =
    let k = rw (a, e, v, p, best_effort_identity_contract) at h in
    let (current, matches) =
      and-eq-true (o.observed_at_unix_ms == observed_at) (identities_match allowed verified pids)
        k in
    (ground (arith, current), match-IsAuthorised allowed verified pids pid matches c)
