-- ===== src/L1/Watcher/Blocks/Batch.antt =====
-- The blocks that an iteration confirms.
use canon.Prelude.{
  ℕ, ◌+◌, ◌-◌, ◌≤◌, ◌<◌, ◌^◌, ◌≡◌, refl, sym, subst, arith, if_cases, min, ltb, ◌==◌, ==_iff,
  ltb→lt, not_ltb→le, if◌then◌else◌,
}
use canon.Prelude.Result.{Result, ok}
use canon.Prelude.Stateful.{continue, or_err}
use canon.Bytes.{IsU64}
use canon.L1.Watcher.{Environment, WatcherError, source}
use canon.L1.Watcher.Blocks.{
  L1Source, WatcherConfig, Step, saturating_add, in_world, process_range, start_after, run_batch,
  run_to, run_iteration,
}
use canon.L1.Watcher.Blocks.Still.{Loop, last_of}
use canon.L1.Watcher.Blocks.Range.{Confirms, process_range-Confirms}

module _ (V : Environment) (L : L1Source V) (config : WatcherConfig) where
  open L use {latest_block_number}

  -- The blocks of the next iteration: those that the head buries deep enough, at most a batch.
  abbrev pub batch_size : (latest start : ℕ) → ℕ
  batch_size latest start =
      if ltb latest (start + config.confirmation_depth)
      then 0
      else min (latest - config.confirmation_depth - start + 1) config.blocks_per_iteration

  batch_size-near :
      (latest start : ℕ) → latest < start + config.confirmation_depth → batch_size latest start ≡ 0
  batch_size-near latest start h = ground arith

  batch_size-idle :
      (latest start : ℕ) → config.blocks_per_iteration ≡ 0 → batch_size latest start ≡ 0
  batch_size-idle latest start h = ground arith

  batch_size-deep :
      (latest start : ℕ)
      → start + config.confirmation_depth ≤ latest
      → config.blocks_per_iteration < 2 ^ 32
      → IsU64 latest
      → batch_size latest start
        ≡ min
            (saturating_add (latest - config.confirmation_depth - start) 1)
            config.blocks_per_iteration
  batch_size-deep latest start h small k = ground arith

  nothing :
      (start count : ℕ) (l : Loop V L config)
      → count ≡ 0
      → Confirms V L config l start count 0 (l, ok 0)
  nothing start count l h =
      subst (λ (n : ℕ). Confirms V L config l start n 0 (l, ok 0)) (sym h) (omega arith, refl, refl)

  run_batch-Confirms :
      (latest start : ℕ) (l : Loop V L config)
      → config.confirmation_depth ≤ latest
      → config.blocks_per_iteration < 2 ^ 32
      → IsU64 latest
      → Confirms V L config l start
          (batch_size latest start)
          0
          (run_batch V L config (latest - config.confirmation_depth) start l)
  run_batch-Confirms latest start l deep small k =
      let C : Step V L config ℕ → Type 0 =
        λ m. Confirms V L config l start (batch_size latest start) 0 (m l) in
      if_cases C (ltb (latest - config.confirmation_depth) start)
        (λ e. nothing start _ l (batch_size-near latest start (omega (arith, ltb→lt _ _ e, deep))))
        (λ e.
          if_cases C (config.blocks_per_iteration == 0)
            (λ z. nothing start _ l (batch_size-idle latest start ((==_iff _ _).0 z)))
            (λ z.
              subst
                (λ (n : ℕ). Confirms V L config l start n 0 (
                  process_range V L config
                    (min (saturating_add (latest - config.confirmation_depth - start) 1)
                      config.blocks_per_iteration)
                    start 0 l))
                (sym (batch_size-deep latest start (omega (arith, not_ltb→le _ _ e, deep)) small k))
                (process_range-Confirms V L config _ start 0 l)))

  run_to-Confirms :
      (latest : ℕ) (l : Loop V L config)
      → config.blocks_per_iteration < 2 ^ 32
      → IsU64 latest
      → Confirms V L config l
          (start_after V L config (last_of V L config l))
          (batch_size latest (start_after V L config (last_of V L config l)))
          0
          (run_to V L config latest l)
  run_to-Confirms latest l small k =
      let start = start_after V L config (last_of V L config l) in
      if_cases
        (λ (p : Loop V L config × Result (WatcherError V) ℕ).
          Confirms V L config l start (batch_size latest start) 0 p)
        (ltb latest config.confirmation_depth)
        (λ e. nothing start _ l (batch_size-near latest start (omega (arith, ltb→lt _ _ e))))
        (λ e. run_batch-Confirms latest start l (not_ltb→le _ _ e) small k)

  -- The watcher after it asked the node for its head.
  abbrev pub asked : Loop V L config → Loop V L config
  asked l = record l { core = record l.core { world = (latest_block_number l.core.world).0 } }

  pub run_iteration-Confirms :
      (latest : ℕ) (l : Loop V L config)
      → config.blocks_per_iteration < 2 ^ 32
      → IsU64 latest
      → (latest_block_number l.core.world).1 ≡ ok latest
      → Confirms V L config
          (asked l)
          (start_after V L config (last_of V L config l))
          (batch_size latest (start_after V L config (last_of V L config l)))
          0
          (run_iteration V L config l)
  unfolding run_iteration
  run_iteration-Confirms latest l small k e =
      let start = start_after V L config (last_of V L config l) in
      subst
        (λ (r : Result V.SourceError ℕ).
          Confirms V L config (asked l) start (batch_size latest start) 0 (
            continue (or_err source (in_world V L config l (latest_block_number l.core.world).0 r))
              (run_to V L config)))
        (sym e) (run_to-Confirms latest (asked l) small k)
