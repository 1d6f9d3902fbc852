-- ===== src/AgentBroker/Threads/Sound.antt =====
-- Any interleaving of the threads keeps what they rely on (crates/ladon-app/src/agent_broker.rs).
use ladon.Prelude.{
  ℕ, zero, suc, ◌+◌, ◌≡◌, inl, inr, refl, Bool, true, false, not, ◌&&◌, Option, none, some, List,
  [], ◌∷◌, ltb, nat_eq, length, is_some, if◌then◌else◌, arith, Bool-cases,
}
use ladon.AgentBroker.Runs.{
  ActiveRun, RunBlock, cancel_active, cancelled_run, is_run_with, is_run_of, is_running,
  block_new_runs, block_for_revoke, block_for_client_revoke, waits, try_block_new_runs,
  set_secret_context, with_context, spawned, spawn_child, drop_lease, drop_block,
}
use ladon.AgentBroker.Threads.{Threads, start, Step, step, run}
use ladon.AgentBroker.Threads.Exclusive.{
  IsExclusive, concerns, escapes, has_context, is_uncancelled, made, cancelled-Follows,
  context-Follows, spawned-Follows, none-Follows, revised-IsExclusive, starts_run-IsExclusive,
  claimed-IsExclusive, cancelled_context, cancelled_some, every_kept, count,
}

cancels-IsExclusive : (s : Threads) → IsExclusive s → IsExclusive (step s Step.cancels)
unfolding step cancel_active
cancels-IsExclusive s sound =
    revised-IsExclusive s (cancelled_run s.coordinator.active) sound
      (cancelled_some s.coordinator.active) (cancelled-Follows s.coordinator.active)
      (cancelled_context s.coordinator.active sound.context)

if_IsExclusive :
    (test : Bool) (s t : Threads)
    → IsExclusive s
    → IsExclusive t
    → IsExclusive (if test then t else s)
if_IsExclusive true s t sound sound' = sound'
if_IsExclusive false s t sound sound' = sound

with_context_some :
    (ids : List ℕ) (active : Option ActiveRun)
    → is_some (with_context ids active).0 ≡ is_some active
with_context_some ids none = refl
with_context_some ids (some r) = ground arith

with_context_context :
    (ids : List ℕ) (active : Option ActiveRun)
    → (is_running active && not (has_context active)) ≡ false
    → (is_running (with_context ids active).0 && not (has_context (with_context ids active).0))
      ≡ false
with_context_context ids none h = refl
with_context_context ids (some r) h = ground arith

sets_context-IsExclusive :
    (ids : List ℕ) (s : Threads) → IsExclusive s → IsExclusive (step s (Step.sets_context ids))
unfolding step set_secret_context
sets_context-IsExclusive ids s sound =
    let active = s.coordinator.active in
    if_IsExclusive (ltb 0 s.leases) s _ sound (
      revised-IsExclusive s (with_context ids active).0 sound (with_context_some ids active)
        (context-Follows ids active) (with_context_context ids active sound.context))

spawned_some :
    (starts : Bool) (active : Option ActiveRun) → is_some (spawned starts active).0 ≡ is_some active
spawned_some starts none = refl
spawned_some starts (some r) = ground arith

spawned_context :
    (starts : Bool) (active : Option ActiveRun)
    → (is_running active && not (has_context active)) ≡ false
    → (is_running (spawned starts active).0 && not (has_context (spawned starts active).0)) ≡ false
spawned_context starts none h = refl
spawned_context starts (some r) h = ground arith

spawns-IsExclusive :
    (starts : Bool) (s : Threads) → IsExclusive s → IsExclusive (step s (Step.spawns starts))
unfolding step spawn_child
spawns-IsExclusive starts s sound =
    let active = s.coordinator.active in
    if_IsExclusive (ltb 0 s.leases) s _ sound (
      revised-IsExclusive s (spawned starts active).0 sound (spawned_some starts active)
        (spawned-Follows starts active) (spawned_context starts active sound.context))

drops_lease-IsExclusive : (s : Threads) → IsExclusive s → IsExclusive (step s Step.drops_lease)
unfolding step drop_lease
drops_lease-IsExclusive s sound =
    let active = s.coordinator.active in
    if_IsExclusive (ltb 0 s.leases) s _ sound (record {
      one_run = let one = sound.one_run in ground arith;
      one_block = sound.one_block;
      excluded = every_kept (λ b. (none-Follows active b).0) s.blocks sound.excluded;
      stopping = every_kept (λ b. (none-Follows active b).1) s.waiting sound.stopping;
      context = refl;
    })

cancelled_stops : (active : Option ActiveRun) → is_uncancelled (cancelled_run active) ≡ false
cancelled_stops none = refl
cancelled_stops (some r) = refl

both_false : (a b : Bool) → b ≡ false → (a && b) ≡ false
both_false a b h = ground arith

module _ (active : Option ActiveRun) (n : ℕ) (bs ws : List RunBlock) where
  blocks_runs-IsExclusive :
      (block_new : Bool)
      → IsExclusive (made active block_new n bs ws)
      → IsExclusive (step (made active block_new n bs ws) Step.blocks_runs)
  unfolding step block_new_runs
  blocks_runs-IsExclusive true sound = sound
  blocks_runs-IsExclusive false sound =
      claimed-IsExclusive active (cancelled_run active) n bs ws RunBlock.all_runs sound
        (cancelled_some active) (cancelled_stops active) (cancelled_context active sound.context)

  blocks_revoke-IsExclusive :
      (client secret_id : ℕ) (block_new : Bool)
      → IsExclusive (made active block_new n bs ws)
      → IsExclusive (step (made active block_new n bs ws) (Step.blocks_revoke client secret_id))
  unfolding step block_for_revoke
  blocks_revoke-IsExclusive client secret_id true sound = sound
  blocks_revoke-IsExclusive client secret_id false sound =
      elim (Bool-cases (is_run_with client secret_id active)) [
        | inl matches ↦ rw matches (
            claimed-IsExclusive active (cancelled_run active) n bs ws _ sound
              (cancelled_some active)
              (both_false (is_run_with client secret_id (cancelled_run active)) _
                (cancelled_stops active))
              (cancelled_context active sound.context))
        | inr other ↦ rw other (
            claimed-IsExclusive active active n bs ws (RunBlock.revoke client secret_id false) sound
              refl (rw other refl) sound.context)
      ]

  blocks_client-IsExclusive :
      (client : ℕ) (block_new : Bool)
      → IsExclusive (made active block_new n bs ws)
      → IsExclusive (step (made active block_new n bs ws) (Step.blocks_client client))
  unfolding step block_for_client_revoke
  blocks_client-IsExclusive client true sound = sound
  blocks_client-IsExclusive client false sound = elim (Bool-cases (is_run_of client active)) [
    | inl matches ↦ rw matches (
        claimed-IsExclusive active (cancelled_run active) n bs ws (RunBlock.client_revoke client)
          sound (cancelled_some active)
          (both_false (is_run_of client (cancelled_run active)) _ (cancelled_stops active))
          (cancelled_context active sound.context))
    | inr other ↦ rw other (
        claimed-IsExclusive active active n bs ws (RunBlock.client_revoke client) sound refl
          (rw other refl) sound.context)
  ]

tries_block-IsExclusive :
    (active : Option ActiveRun) (n : ℕ) (bs ws : List RunBlock) (block_new : Bool)
    → IsExclusive (made active block_new n bs ws)
    → IsExclusive (step (made active block_new n bs ws) Step.tries_block)
unfolding step try_block_new_runs
tries_block-IsExclusive active n bs ws true sound = sound
tries_block-IsExclusive (some r) n bs ws false sound = sound
tries_block-IsExclusive none n (b ∷ bs) ws false sound =
    let one = sound.one_block in absurd (omega arith)
tries_block-IsExclusive none n [] (w ∷ ws) false sound =
    let one = sound.one_block in absurd (omega arith)
tries_block-IsExclusive none n [] [] false sound = record {
  one_run = sound.one_run;
  one_block = refl;
  excluded = (refl, tt);
  stopping = tt;
  context = refl;
}

-- A run that is not waited for any more is over, or is not one that the block is for.
waits_no_more :
    (b : RunBlock) (active : Option ActiveRun) (block_new : Bool)
    → escapes b active ≡ false
    → waits b (record { active = active; block_new = block_new }) ≡ false
    → concerns b active ≡ false
unfolding waits
waits_no_more RunBlock.all_runs active block_new stopped over = over
waits_no_more (RunBlock.revoke c k m) none block_new stopped over = refl
waits_no_more (RunBlock.revoke c k true) (some r) block_new stopped over = absurd cc
waits_no_more (RunBlock.revoke c k false) (some r) block_new stopped over = ground arith
waits_no_more (RunBlock.client_revoke c) active block_new stopped over = over

too_many : (a b : ℕ) (block_new : Bool) → ¬ (suc a + suc b ≡ count block_new)
too_many a b true h = omega arith
too_many a b false h = omega arith

too_many_left : (a : ℕ) (block_new : Bool) → ¬ (suc (suc a) ≡ count block_new)
too_many_left a true h = omega arith
too_many_left a false h = omega arith

module _ (active : Option ActiveRun) (n : ℕ) where
  looks_again-IsExclusive :
      (block_new : Bool) (bs ws : List RunBlock) (i : ℕ)
      → IsExclusive (made active block_new n bs ws)
      → IsExclusive (step (made active block_new n bs ws) (Step.looks_again i))
  unfolding step
  looks_again-IsExclusive block_new bs [] i sound = sound
  looks_again-IsExclusive block_new (b ∷ bs) (x ∷ ws) i sound =
      absurd (too_many (length bs) (length ws) block_new sound.one_block)
  looks_again-IsExclusive block_new [] (x ∷ y ∷ ws) i sound =
      let one = sound.one_block in absurd (too_many_left (length ws) block_new (omega arith))
  looks_again-IsExclusive block_new [] (x ∷ []) (suc i) sound = sound
  looks_again-IsExclusive block_new [] (x ∷ []) zero sound =
      elim (Bool-cases (waits x (record { active = active; block_new = block_new }))) [
        | inl more ↦ rw more sound
        | inr over ↦ rw over (record {
          one_run = sound.one_run;
          one_block = let one = sound.one_block in omega arith;
          excluded = (waits_no_more x active block_new (sound.stopping.0) over, tt);
          stopping = tt;
          context = sound.context;
        })
      ]

  drops_block-IsExclusive :
      (block_new : Bool) (bs ws : List RunBlock) (i : ℕ)
      → IsExclusive (made active block_new n bs ws)
      → IsExclusive (step (made active block_new n bs ws) (Step.drops_block i))
  unfolding step drop_block
  drops_block-IsExclusive block_new [] ws i sound = sound
  drops_block-IsExclusive block_new (b ∷ bs) (x ∷ ws) i sound =
      absurd (too_many (length bs) (length ws) block_new sound.one_block)
  drops_block-IsExclusive block_new (x ∷ y ∷ bs) [] i sound =
      let one = sound.one_block in absurd (too_many_left (length bs) block_new (omega arith))
  drops_block-IsExclusive block_new (x ∷ []) [] (suc i) sound = sound
  drops_block-IsExclusive block_new (x ∷ []) [] zero sound = record {
    one_run = sound.one_run;
    one_block = refl;
    excluded = tt;
    stopping = tt;
    context = sound.context;
  }

start-IsExclusive : IsExclusive start
start-IsExclusive = record {
  one_run = refl;
  one_block = refl;
  excluded = tt;
  stopping = tt;
  context = refl;
}

step-IsExclusive : (s : Threads) (x : Step) → IsExclusive s → IsExclusive (step s x)
step-IsExclusive s (Step.starts_run cancelled client) sound =
    starts_run-IsExclusive cancelled client s.coordinator.active s.coordinator.block_new s.leases
      s.blocks s.waiting sound
step-IsExclusive s Step.cancels sound = cancels-IsExclusive s sound
step-IsExclusive s (Step.sets_context ids) sound = sets_context-IsExclusive ids s sound
step-IsExclusive s (Step.spawns starts) sound = spawns-IsExclusive starts s sound
step-IsExclusive s Step.drops_lease sound = drops_lease-IsExclusive s sound
step-IsExclusive s Step.blocks_runs sound =
    blocks_runs-IsExclusive s.coordinator.active s.leases s.blocks s.waiting s.coordinator.block_new
      sound
step-IsExclusive s Step.tries_block sound =
    tries_block-IsExclusive s.coordinator.active s.leases s.blocks s.waiting s.coordinator.block_new
      sound
step-IsExclusive s (Step.blocks_revoke client secret_id) sound =
    blocks_revoke-IsExclusive s.coordinator.active s.leases s.blocks s.waiting client secret_id
      s.coordinator.block_new sound
step-IsExclusive s (Step.blocks_client client) sound =
    blocks_client-IsExclusive s.coordinator.active s.leases s.blocks s.waiting client
      s.coordinator.block_new sound
step-IsExclusive s (Step.looks_again i) sound =
    looks_again-IsExclusive s.coordinator.active s.leases s.coordinator.block_new s.blocks s.waiting
      i sound
step-IsExclusive s (Step.drops_block i) sound =
    drops_block-IsExclusive s.coordinator.active s.leases s.coordinator.block_new s.blocks s.waiting
      i sound

from : (s : Threads) (xs : List Step) → IsExclusive s → IsExclusive (run s xs)
unfolding run
from s [] sound = sound
from s (x ∷ xs) sound = from (step s x) xs (step-IsExclusive s x sound)

-- Whatever the threads have done, there is a lease exactly while a run is active, and at most one; at most
-- one block is held or waited for, exactly while new runs are refused; no run that a held block is for is
-- active; a run that a block waits for is cancelled; and a run whose process was started has chosen its
-- secrets.
pub run-IsExclusive : (xs : List Step) → IsExclusive (run start xs)
run-IsExclusive xs = from start xs start-IsExclusive
