-- ===== src/L1/Watcher/Blocks/Depth.antt =====
-- How far under the head an iteration stays.
use canon.Prelude.{
  ℕ, zero, suc, ◌+◌, ◌≤◌, ◌<◌, ◌^◌, ◌≡◌, ◌⊎◌, inl, inr, refl, subst, arith, Option, some,
}
use canon.Prelude.Result.{Result, ok, err}
use canon.Bytes.{IsU64}
use canon.L1.Watcher.{Environment, WatcherError}
use canon.L1.Watcher.Blocks.{L1Source, WatcherConfig, run_iteration}
use canon.L1.Watcher.Blocks.Still.{Loop, last_of}
use canon.L1.Watcher.Blocks.Range.{last_after, Confirms}
use canon.L1.Watcher.Blocks.Batch.{batch_size, asked, run_iteration-Confirms}

module _ (V : Environment) (L : L1Source V) (config : WatcherConfig) where
  open L use {latest_block_number}

  batch_size-le :
      (latest start d : ℕ)
      → suc d ≤ batch_size V L config latest start
      → start + d + config.confirmation_depth ≤ latest
  batch_size-le latest start d h = ground arith

  below_head :
      (latest b : ℕ) (last : Option ℕ) (start count done : ℕ) (now : Option ℕ)
      → count ≡ batch_size V L config latest start
      → done ≤ count
      → now ≡ last_after V L config last start done
      → now ≡ some b
      → (last ≡ some b) ⊎ (b + config.confirmation_depth ≤ latest)
  below_head latest b last start count zero now size h at is_b = inl (cc (at, is_b))
  below_head latest b last start count (suc done) now size h at is_b =
      let same : start + done ≡ b = cc (at, is_b) in
      inr (
        subst (λ (n : ℕ). n + config.confirmation_depth ≤ latest) same
          (batch_size-le latest start done (omega (arith, size, h))))

  Confirms-below_head :
      (latest b : ℕ) (l : Loop V L config) (start : ℕ)
      (p : Loop V L config × Result (WatcherError V) ℕ)
      → Confirms V L config l start (batch_size V L config latest start) 0 p
      → last_of V L config p.0 ≡ some b
      → (last_of V L config l ≡ some b) ⊎ (b + config.confirmation_depth ≤ latest)
  Confirms-below_head latest b l start (out, ok m) (counted, ran, now) is_b =
      below_head latest b (last_of V L config l) start _ (batch_size V L config latest start) _ refl
        (omega arith) now is_b
  Confirms-below_head latest b l start (out, err e) (done, at, less, ran, failed, now) is_b =
      below_head latest b (last_of V L config l) start _ done _ refl (omega (arith, less)) now is_b

  -- Whatever an iteration meets, a block that it newly confirmed lies at least `confirmation_depth` under
  -- the head that the node gave. The head is a `u64` and the batch a `u32`.
  pub run_iteration-depth :
      (latest b : ℕ) (l : Loop V L config)
      → config.blocks_per_iteration < 2 ^ 32
      → IsU64 latest
      → (latest_block_number l.core.world).1 ≡ ok latest
      → last_of V L config (run_iteration V L config l).0 ≡ some b
      → (last_of V L config l ≡ some b) ⊎ (b + config.confirmation_depth ≤ latest)
  run_iteration-depth latest b l small k e =
      Confirms-below_head latest b (asked V L config l) _ (run_iteration V L config l)
        (run_iteration-Confirms V L config latest l small k e)
