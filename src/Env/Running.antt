-- ===== src/Env/Running.antt =====
-- env_run: which environment runs.
use kp.Base.{
  ℕ, ◌+◌, ◌%◌, ◌^◌, ◌≡◌, refl, ap, ◌∙◌, ◌==◌, true, false, inl, inr, Option, some, Bool-cases,
  ==_refl, arith, Option-cases,
}
use kp.Run.{ok}
use kp.Kernel.{Kernel, is_running, env_running, env_runnable, update_at}
use kp.Env.{env_run, pause_current}

-- Only the current environment is running.
unfoldable pub IsSolo : Kernel → Type 0
IsSolo k = (j : ℕ) → is_running (k.envs j).env_status ≡ true → k.curenv ≡ some j

-- After the pause no environment runs, and nothing else of an environment that env_run needs has
-- changed.
record Paused (k k' : Kernel) : Type 0 where
  run : pause_current k ≡ ok tt k'
  stopped : (j : ℕ) → is_running (k'.envs j).env_status ≡ false
  pml4_kept : (j : ℕ) → (k'.envs j).env_pml4 ≡ (k.envs j).env_pml4
  frame_kept : (j : ℕ) → (k'.envs j).env_frame ≡ (k.envs j).env_frame
  runs_kept : (j : ℕ) → (k'.envs j).env_runs ≡ (k.envs j).env_runs
  ids_kept : (j : ℕ) → (k'.envs j).env_id ≡ (k.envs j).env_id

no_other :
    (k : Kernel)
    → IsSolo k
    → (j : ℕ) → (k.curenv ≡ some j → is_running (k.envs j).env_status ≡ false)
    → is_running (k.envs j).env_status ≡ false
unfolding IsSolo
no_other k v j h = elim (Bool-cases (is_running (k.envs j).env_status)) [
  | inl r ↦ h (v j r)
  | inr n ↦ n
]

same : {o : Option ℕ} {c j : ℕ} → o ≡ some c → o ≡ some j → c ≡ j
same q p = cc

abbrev without_current : Kernel → ℕ → Kernel
without_current k c = record k {
  envs = update_at k.envs c (record (k.envs c) { env_status = env_runnable });
}

paused : (k : Kernel) → IsSolo k → (k' : Kernel) × Paused k k'
paused k v = elim (Option-cases k.curenv) [
  | inl n ↦ (
    k,
    record {
      run = unfold pause_current in rw n refl;
      stopped = λ j. no_other k v j (λ q. absurd (cc));
      pml4_kept = λ j. refl;
      frame_kept = λ j. refl;
      runs_kept = λ j. refl;
      ids_kept = λ j. refl;
    },
  )
  | inr (c, q) ↦ elim (Bool-cases (is_running (k.envs c).env_status)) [
    | inl r ↦ (
      without_current k c,
      record {
        run = unfold pause_current in rw (q, r) refl;
        stopped = λ j. elim (Bool-cases (j == c)) [
          | inl e ↦ rw e refl
          | inr e ↦ rw e (no_other k v j (λ p. ground arith))
        ];
        pml4_kept = λ j. elim (Bool-cases (j == c)) [
          | inl e ↦ let i : c ≡ j = ground arith in rw e (ap (λ (i : ℕ). (k.envs i).env_pml4) i)
          | inr e ↦ rw e refl
        ];
        frame_kept = λ j. ground arith;
        runs_kept = λ j. ground arith;
        ids_kept = λ j. ground arith;
      },
    )
    | inr r ↦ (
      k,
      record {
        run = unfold pause_current in rw (q, r) refl;
        stopped = λ j.
            no_other k v j
              (λ p. ground (arith, r, ap (λ (i : ℕ). is_running (k.envs i).env_status) (same q p)));
        pml4_kept = λ j. refl;
        frame_kept = λ j. refl;
        runs_kept = λ j. refl;
        ids_kept = λ j. refl;
      },
    )
  ]
]

abbrev resumed : Kernel → ℕ → ℕ → Kernel
resumed k e pml4 = record k {
  curenv = some e;
  loaded = pml4;
  envs = update_at k.envs e (record (k.envs e) {
    env_status = env_running;
    env_runs = ((k.envs e).env_runs + 1) % 2 ^ 32;
  });
}

only_resumed :
    (k : Kernel) (e pml4 : ℕ)
    → ((j : ℕ) → is_running (k.envs j).env_status ≡ false)
    → IsSolo (resumed k e pml4)
unfolding IsSolo
only_resumed k e pml4 s j r = elim (Bool-cases (j == e)) [
  | inl q ↦ ap some (ground arith)
  | inr q ↦ absurd (ground (arith, s j))
]

run_from :
    (k k' : Kernel) (e pml4 : ℕ)
    → pause_current k ≡ ok tt k'
    → (k'.envs e).env_pml4 ≡ some pml4
    → env_run e k ≡ ok (k'.envs e).env_frame (resumed k' e pml4)
unfolding env_run
run_from k k' e pml4 p h = rw (p, ==_refl e) (rw h refl)

-- If only the current environment is running and e has a page table, env_run makes e the current
-- environment, counts the run, loads the page table, gives e's frame to the processor, and
-- afterwards e is running and only the current environment is.
pub env_run-IsSolo :
    (k : Kernel) (e pml4 : ℕ)
    → IsSolo k
    → (k.envs e).env_pml4 ≡ some pml4
    → (k' : Kernel) × (env_run e k ≡ ok (k.envs e).env_frame k')
      × (k'.curenv ≡ some e)
      × (k'.loaded ≡ pml4)
      × ((k'.envs e).env_runs ≡ ((k.envs e).env_runs + 1) % 2 ^ 32)
      × (is_running (k'.envs e).env_status ≡ true)
      × IsSolo k'
env_run-IsSolo k e pml4 v h =
    let (k', p) = paused k v in
    (
      resumed k' e pml4,
      run_from k k' e pml4 p.run (p.pml4_kept e ∙ h)
          ∙ ap (λ f. ok f (resumed k' e pml4)) (p.frame_kept e),
      refl,
      refl,
      rw (==_refl e) (ap (λ r. (r + 1) % 2 ^ 32) (p.runs_kept e)),
      rw (==_refl e) refl,
      only_resumed k' e pml4 p.stopped,
    )

-- env_run changes no environment's id.
pub env_run-ids :
    (k : Kernel) (e pml4 : ℕ)
    → IsSolo k
    → (k.envs e).env_pml4 ≡ some pml4
    → (k' : Kernel) × (env_run e k ≡ ok (k.envs e).env_frame k')
      × ((j : ℕ) → (k'.envs j).env_id ≡ (k.envs j).env_id)
env_run-ids k e pml4 v h =
    let (k', p) = paused k v in
    (
      resumed k' e pml4,
      run_from k k' e pml4 p.run (p.pml4_kept e ∙ h)
          ∙ ap (λ f. ok f (resumed k' e pml4)) (p.frame_kept e),
      λ j. ground (arith, p.ids_kept j, p.ids_kept e),
    )
