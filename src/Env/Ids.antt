-- ===== src/Env/Ids.antt =====
-- Environment ids: the index they hold, and the ids that a slot had before.
use kp.Base.{
  ℕ, ◌+◌, ◌*◌, ◌/◌, ◌%◌, ◌^◌, ◌<◌, ◌≡◌, ◌≢◌, refl, ◌==◌, leb, false, Bool, inl, inr, none, some,
  Bool-cases, ==_refl, ◌⊎◌, ◌≤◌, arith, bit_or, bit_or-div, bit_or-mod, bit_or-zero, zero-bit_or,
}
use kp.Run.{ok}
use kp.Kernel.{Kernel, update_at}
use kp.Env.{nenv, envx, envid2env, next_generation, next_env_id, started}

-- `|` of a multiple of 1024 and an index.
or_index : (g e : ℕ) → g % 1024 ≡ 0 → e < 1024 → bit_or g e ≡ g + e
or_index g e hg he = omega (arith, high, low)
  where
    high : bit_or g e / 2 ^ 10 ≡ g / 2 ^ 10
    high =
        let z : e / 2 ^ 10 ≡ 0 = omega arith in rw (bit_or-div 10 g e, z) (bit_or-zero (g / 2 ^ 10))

    low : bit_or g e % 2 ^ 10 ≡ e
    low =
        let z : g % 2 ^ 10 ≡ 0 = omega arith in
        let y : e % 2 ^ 10 ≡ e = omega arith in rw (bit_or-mod 10 g e, z, y) (zero-bit_or e)

abbrev raw_generation : ℕ → ℕ
raw_generation id = (id + 2 ^ 12) % 2 ^ 32 / 1024 * 1024

generation_cases :
    (id : ℕ)
    → ((next_generation id ≡ 2 ^ 12) × (raw_generation id ≡ 0)
        ⊎ ((next_generation id ≡ 2 ^ 12) × (2 ^ 31 ≤ raw_generation id)))
      ⊎ ((next_generation id ≡ raw_generation id)
          × (0 < raw_generation id)
          × (raw_generation id < 2 ^ 31))
unfolding next_generation
generation_cases id = elim (Bool-cases (raw_generation id == 0)) [
  | inl z ↦ inl (inl (rw z refl, ground arith))
  | inr n ↦ elim (Bool-cases (leb (2 ^ 31) (raw_generation id))) [
    | inl h ↦ inl (inr (rw (n, h) refl, ground arith))
    | inr l ↦ inr (rw (n, l) refl, ground arith, ground arith)
  ]
]

generation_bounds :
    (id : ℕ)
    → (next_generation id % 1024 ≡ 0)
      × (4096 < next_generation id + 4096)
      × (next_generation id < 2 ^ 31)
generation_bounds id = (
  omega (arith, generation_cases id),
  omega (arith, generation_cases id),
  omega (arith, generation_cases id),
)

generation_new : (id : ℕ) → id < 2 ^ 31 → next_generation id / 1024 ≢ id / 1024
generation_new id h q = omega (arith, generation_cases id)

-- For an old id below 2 ^ 31 and a slot below 1024, the new id is positive and below 2 ^ 31, its
-- index is the slot, and it differs from the old id.
next_env_id_lem :
    (id e : ℕ)
    → id < 2 ^ 31
    → e < nenv
    → (0 < next_env_id id e)
      × (next_env_id id e < 2 ^ 31)
      × (envx (next_env_id id e) ≡ e)
      × (next_env_id id e ≢ id)
next_env_id_lem id e h he = (
  omega (arith, sum, generation_bounds id),
  room,
  omega (arith, sum, generation_bounds id),
  λ q. omega (arith, sum, generation_bounds id, generation_new id h),
)
  where
    sum : next_env_id id e ≡ next_generation id + e
    sum = unfold next_env_id in or_index (next_generation id) e (generation_bounds id).0 he

    room : next_env_id id e < 2 ^ 31
    room = omega (arith, sum, generation_bounds id)

-- The kernel once the slot `e` holds a new environment.
abbrev pub with_started : ℕ → ℕ → Kernel → Kernel
with_started e parent_id k = record k { envs = update_at k.envs e (started e parent_id (k.envs e)) }

module _ (k : Kernel) (e parent_id : ℕ) (he : e < nenv) (h : (k.envs e).env_id < 2 ^ 31) where
  abbrev old_id : ℕ
  old_id = (k.envs e).env_id

  -- Once slot e, whose id was below 2 ^ 31, is taken for a new environment, envid2env without
  -- the permission check finds e by its new id.
  pub envid2env-started :
      envid2env (next_env_id old_id e) false (with_started e parent_id k)
      ≡ ok (some (some e)) (with_started e parent_id k)
  unfolding envid2env
  envid2env-started =
      let new = next_env_id_lem old_id e h he in
      let nonzero : (next_env_id old_id e == 0) ≡ false = ground (arith, new.0) in
      rw (nonzero, new.2, ==_refl e) (rw (==_refl (next_env_id old_id e)) refl)

  -- Once slot e, whose id was positive and named the slot, is taken for a new environment,
  -- envid2env refuses the old id, with or without the permission check.
  pub envid2env-stale :
      (check : Bool)
      → envx old_id ≡ e
      → old_id ≢ 0
      → envid2env old_id check (with_started e parent_id k) ≡ ok none (with_started e parent_id k)
  unfolding envid2env
  envid2env-stale check x n =
      let new = next_env_id_lem old_id e h he in
      let z : (old_id == 0) ≡ false = ground arith in
      let d : (next_env_id old_id e == old_id) ≡ false = ground (arith, new.3) in
      rw (z, x, ==_refl e) (rw d refl)
