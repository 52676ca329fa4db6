-- ===== src/Env/Lists.antt =====
-- env_init leaves the environments in the free list in the order of the array.
use kp.Base.{
  ℕ, zero, suc, ◌+◌, ◌<◌, ◌≡◌, refl, ◌∙◌, ap, ◌==◌, false, if◌then◌else◌, inl, inr, Option, none,
  some, Bool-cases, ==_refl, arith,
}
use kp.Run.{Run, ok}
use kp.Kernel.{Kernel, update_at, Env, env_free_status}
use kp.Env.{init_loop, env_init}

-- The first `n` environments are free, without an id, and linked in order; the last one's link is
-- `last`.
pub record Ordered (k : Kernel) (n : ℕ) (last : Option ℕ) : Type 0 where
  pub head : k.env_free_list ≡ (if n == 0 then last else some 0)
  pub link : (i : ℕ) → i < n → (k.envs i).env_link ≡ (if i + 1 == n then last else some (i + 1))
  pub ids : (i : ℕ) → i < n → (k.envs i).env_id ≡ 0
  pub status : (i : ℕ) → i < n → (k.envs i).env_status ≡ env_free_status

-- What the loop leaves of the environments it does not reach.
record Initialised (k : Kernel) (n : ℕ) (r : Run Kernel (Unit {0})) : Type 0 where
  after : Kernel
  run : r ≡ ok tt after
  ordered : Ordered after n k.env_free_list
  kept : (j : ℕ) → n < j + 1 → after.envs j ≡ k.envs j

abbrev freed : ℕ → Kernel → Kernel
freed i k = record k {
  env_free_list = some i;
  envs =
      update_at k.envs i (record (k.envs i) {
        env_id = 0;
        env_status = env_free_status;
        env_link = k.env_free_list;
      });
}

one_more :
    (i : ℕ) (k : Kernel) (r : Run Kernel (Unit {0}))
    → Initialised (freed i k) i r
    → Initialised k (suc i) r
one_more i k r v = record {
  after = v.after;
  run = v.run;
  ordered = record {
    head = ground (arith, v.ordered.head);
    link = λ j h. elim (Bool-cases (j == i)) [
      | inl e ↦
          let s : j ≡ i = ground arith in rw s (ap (λ (e : Env). e.env_link) own ∙ ground arith)
      | inr e ↦ ground (arith, v.ordered.link j)
    ];
    ids = λ j h. elim (Bool-cases (j == i)) [
      | inl e ↦ let s : j ≡ i = ground arith in rw s (ap (λ (e : Env). e.env_id) own)
      | inr e ↦ v.ordered.ids j (ground arith)
    ];
    status = λ j h. elim (Bool-cases (j == i)) [
      | inl e ↦ let s : j ≡ i = ground arith in rw s (ap (λ (e : Env). e.env_status) own)
      | inr e ↦ v.ordered.status j (ground arith)
    ];
  };
  kept = λ j h. let n : (j == i) ≡ false = ground arith in v.kept j (omega arith) ∙ rw n refl;
}
  where
    own :
        v.after.envs i
        ≡ record (k.envs i) { env_id = 0; env_status = env_free_status; env_link = k.env_free_list }
    own = v.kept i (omega arith) ∙ rw (==_refl i) refl

init_loop_lem : (n : ℕ) (k : Kernel) → Initialised k n (init_loop n k)
unfolding init_loop
init_loop_lem zero k = record {
  after = k;
  run = refl;
  ordered = record {
    head = refl;
    link = λ i h. absurd (omega arith);
    ids = λ i h. absurd (omega arith);
    status = λ i h. absurd (omega arith);
  };
  kept = λ j h. refl;
}
init_loop_lem (suc n) k = one_more n k _ (init_loop_lem n (freed n k))

-- env_init on n environments succeeds; all of them are then free with id 0, and the free list
-- has them in the order of the array.
pub env_init-Ordered :
    (n : ℕ) (k : Kernel) → (k' : Kernel) × (env_init n k ≡ ok tt k') × Ordered k' n none
unfolding env_init
env_init-Ordered n k =
    let v = init_loop_lem n (record k { env_free_list = none }) in (v.after, v.run, v.ordered)
