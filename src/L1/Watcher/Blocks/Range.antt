-- ===== src/L1/Watcher/Blocks/Range.antt =====
-- What the loop over a range of blocks leaves.
use canon.Prelude.{
  ℕ, zero, suc, ◌+◌, ◌<◌, ◌≡◌, ◌⊎◌, inl, inr, refl, sym, ap, ◌∙◌, subst, arith, Option, some, [],
  ◌∷◌, ◌++◌,
}
use canon.Prelude.Result.{Result, ok, err}
use canon.Prelude.Stateful.{continue, or_err}
use canon.L1.Journal.{StateError, WatcherState, confirmed, parsed}
use canon.L1.Watcher.{Environment, WatcherError, state}
use canon.L1.Watcher.Mirror.{appended}
use canon.L1.Watcher.Blocks.{
  L1Source, WatcherConfig, in_world, process_block, append_record, set_confirmed, confirm_block,
  process_range,
}
use canon.L1.Watcher.Blocks.Still.{Loop, last_of, process_block-Still}

module _ (V : Environment) (L : L1Source V) (config : WatcherConfig) where
  open V use {World, append, journal}

  -- The record of a confirmed block is the new end of the journal, and the state in memory names it.
  abbrev pub IsRecorded : ℕ → Loop V L config → Loop V L config → Type 0
  IsRecorded n before after =
      (journal after.core.world ≡ journal before.core.world ++ parsed (confirmed n) ∷ [])
      × (after.core.in_memory ≡ record before.core.in_memory { last_confirmed_block = some n })
      × (after.reorg_window ≡ before.reorg_window)

  -- Each of `count` blocks from `start` was processed with success and then recorded, in ascending order.
  abbrev pub Ran : (count start : ℕ) → Loop V L config → Loop V L config → Type 0
  Ran zero start l out = out ≡ l
  Ran (suc count) start l out =
      (m : Loop V L config) × (n : Loop V L config) × (process_block V L config start l
        ≡ (m, ok tt))
      × IsRecorded start m n
      × Ran count (start + 1) n out

  -- Processing block `n` failed, or its record could not be written; then memory is as processing left it.
  abbrev pub FailedAt : ℕ → (l out : Loop V L config) → WatcherError V → Type 0
  FailedAt n l out e =
      (process_block V L config n l ≡ (out, err e))
      ⊎ ((m : Loop V L config) × (x : StateError) × (process_block V L config n l ≡ (m, ok tt))
          × (e ≡ state x)
          × (out.core.in_memory ≡ m.core.in_memory)
          × (out.reorg_window ≡ m.reorg_window))

  -- The last confirmed block after `count` blocks from `start` were confirmed.
  abbrev pub last_after : Option ℕ → ℕ → ℕ → Option ℕ
  last_after last start zero = last
  last_after last start (suc count) = some (start + count)

  -- All `count` blocks were processed, recorded and counted, or the error came at one of them, behind
  -- those before it; the last confirmed block is the last one recorded.
  abbrev pub Confirms :
      Loop V L config
      → (start count processed : ℕ) → Loop V L config × Result (WatcherError V) ℕ
      → Type 0
  Confirms l start count processed (out, ok m) =
      (m ≡ processed + count)
      × Ran count start l out
      × (last_of V L config out ≡ last_after (last_of V L config l) start count)
  Confirms l start count processed (out, err e) =
      (done : ℕ) × (at : Loop V L config) × (done < count)
      × Ran done start l at
      × FailedAt (start + done) at out e
      × (last_of V L config out ≡ last_after (last_of V L config l) start done)

  abbrev One : ℕ → Loop V L config → Loop V L config × Result (WatcherError V) (Unit {0}) → Type 0
  One n l (out, ok _) =
      (m : Loop V L config) × (process_block V L config n l ≡ (m, ok tt)) × IsRecorded n m out
  One n l (out, err e) = FailedAt n l out e × (last_of V L config out ≡ last_of V L config l)

  -- The record of a block that was processed.
  appended-One :
      (n : ℕ) (l m : Loop V L config)
      → process_block V L config n l ≡ (m, ok tt)
      → last_of V L config m ≡ last_of V L config l
      → (q : World × Result StateError (Unit {0})) → append m.core.world (confirmed n) ≡ q
      → One n l (
          continue (or_err state (in_world V L config m q.0 q.1)) (λ _. set_confirmed V L config n))
  appended-One n l m h still (w, ok _) e =
      (m, h, (appended V m.core.world w (confirmed n) e, refl, refl))
  appended-One n l m h still (w, err x) e = (inr (m, x, h, refl, refl, refl), still)

  processed-One :
      (n : ℕ) (l : Loop V L config) (p : Loop V L config × Result (WatcherError V) (Unit {0}))
      → process_block V L config n l ≡ p
      → One n l (
          continue
            (continue p (λ _. append_record V L config (confirmed n)))
            (λ _. set_confirmed V L config n))
  processed-One n l (m, ok _) h =
      appended-One n l m h
        (ap (λ (q : Loop V L config × Result (WatcherError V) (Unit {0})). last_of V L config q.0)
            (sym h)
          ∙ process_block-Still V L config n l)
        (append m.core.world (confirmed n)) refl
  processed-One n l (m, err e) h = (
    inl h,
    ap (λ (q : Loop V L config × Result (WatcherError V) (Unit {0})). last_of V L config q.0)
          (sym h)
        ∙ process_block-Still V L config n l,
  )

  confirm_block-One : (n : ℕ) (l : Loop V L config) → One n l (confirm_block V L config n l)
  unfolding confirm_block
  confirm_block-One n l = processed-One n l (process_block V L config n l) refl

  last_after-next :
      (last : Option ℕ) (start count : ℕ)
      → last_after (some start) (start + 1) count ≡ last_after last start (suc count)
  last_after-next last start zero = ap some (omega arith)
  last_after-next last start (suc count) = ap some (omega arith)

  last_after-recorded :
      (l m n : Loop V L config) (start count : ℕ)
      → IsRecorded start m n
      → last_after (last_of V L config n) (start + 1) count
        ≡ last_after (last_of V L config l) start (suc count)
  last_after-recorded l m n start count r =
      ap (λ (s : WatcherState). last_after s.last_confirmed_block (start + 1) count) r.1
      ∙ last_after-next (last_of V L config l) start count

  -- A block in front of a range.
  Confirms-next :
      (l m n : Loop V L config) (start count processed : ℕ)
      (p : Loop V L config × Result (WatcherError V) ℕ)
      → process_block V L config start l ≡ (m, ok tt)
      → IsRecorded start m n
      → Confirms n (start + 1) count (processed + 1) p
      → Confirms l start (suc count) processed p
  Confirms-next l m n start count processed (out, ok k) h r (counted, ran, at) =
      (counted ∙ omega arith, (m, n, h, r, ran), at ∙ last_after-recorded l m n start count r)
  Confirms-next l m n start count processed (out, err e) h r (done, here, less, ran, failed, at) = (
    suc done,
    here,
    omega (arith, less),
    (m, n, h, r, ran),
    subst (λ (b : ℕ). FailedAt b here out e) (omega arith) failed,
    at ∙ last_after-recorded l m n start done r,
  )

  range-Confirms :
      (l : Loop V L config) (start count processed : ℕ)
      (p : Loop V L config × Result (WatcherError V) (Unit {0}))
      → One start l p
      → ((n : Loop V L config)
          → Confirms n
              (start + 1)
              count
              (processed + 1)
              (process_range V L config count (start + 1) (processed + 1) n))
      → Confirms l start
          (suc count)
          processed
          (continue p (λ _. process_range V L config count (start + 1) (processed + 1)))
  range-Confirms l start count processed (n, ok _) (m, h, r) rest =
      Confirms-next l m n start count processed
        (process_range V L config count (start + 1) (processed + 1) n) h r (rest n)
  range-Confirms l start count processed (out, err e) (failed, still) rest =
      let here : start ≡ start + 0 = omega arith in
      (0, l, omega arith, refl, subst (λ (b : ℕ). FailedAt b l out e) here failed, still)

  pub process_range-Confirms :
      (count start processed : ℕ) (l : Loop V L config)
      → Confirms l start count processed (process_range V L config count start processed l)
  unfolding process_range
  process_range-Confirms zero start processed l = (omega arith, refl, refl)
  process_range-Confirms (suc count) start processed l =
      range-Confirms l start count processed (confirm_block V L config start l)
        (confirm_block-One start l) (process_range-Confirms count (start + 1) (processed + 1))
