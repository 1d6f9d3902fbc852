-- ===== src/AgentBroker/Threads/Exclusive.antt =====
-- What the threads rely on: one run at a time, one block at a time, and none of the runs that a block is
-- for while it is held (crates/ladon-app/src/agent_broker.rs).
use ladon.Prelude.{
  ℕ, zero, suc, ◌+◌, ◌≡◌, refl, Bool, true, false, not, ◌&&◌, ◌||◌, Option, none, some, List, [],
  ◌∷◌, nat_eq, get_elem?, length, All, is_some, if◌then◌else◌, arith, ap, sym, ◌∙◌,
}
use mathlib.Core.Option.{some-injective}
use ladon.AgentBroker.Runs.{
  ActiveRun, RunBlock, try_start, cancelled_run, is_run_with, is_run_of, is_running, with_context,
  spawned,
}
use ladon.AgentBroker.Threads.{Threads, Step, step, run}

-- The block is for this run.
abbrev pub concerns : RunBlock → Option ActiveRun → Bool
concerns RunBlock.all_runs active = is_some active
concerns (RunBlock.revoke client secret_id matches) active = is_run_with client secret_id active
concerns (RunBlock.client_revoke client) active = is_run_of client active

abbrev pub is_uncancelled : Option ActiveRun → Bool
is_uncancelled none = false
is_uncancelled (some run) = not run.cancelled

-- A block that is waited for: the run that it is for is not cancelled, or not waited for.
abbrev pub escapes : RunBlock → Option ActiveRun → Bool
escapes RunBlock.all_runs active = is_uncancelled active
escapes (RunBlock.revoke client secret_id matches) active =
    is_run_with client secret_id active && (not matches || is_uncancelled active)
escapes (RunBlock.client_revoke client) active = is_run_of client active && is_uncancelled active

abbrev pub has_context : Option ActiveRun → Bool
has_context none = false
has_context (some run) = is_some run.secret_ids

abbrev pub count : Bool → ℕ
count b = if b then 1 else 0

abbrev pub Concerned : Option ActiveRun → RunBlock → Type 0
Concerned active b = concerns b active ≡ false

abbrev pub Escaped : Option ActiveRun → RunBlock → Type 0
Escaped active b = escapes b active ≡ false

pub record IsExclusive (s : Threads) : Type 0 where
  pub one_run : s.leases ≡ count (is_some s.coordinator.active)
  pub one_block : length s.blocks + length s.waiting ≡ count s.coordinator.block_new
  pub excluded : All (Concerned s.coordinator.active) s.blocks
  pub stopping : All (Escaped s.coordinator.active) s.waiting
  pub context : (is_running s.coordinator.active && not (has_context s.coordinator.active)) ≡ false

pub every_kept {ℓ κ} :
    {P : RunBlock → Type ℓ} {Q : RunBlock → Type κ}
    → ((b : RunBlock) → P b → Q b)
    → (bs : List RunBlock) → All P bs
    → All Q bs
every_kept f [] all = tt
every_kept f (b ∷ bs) (p, all) = (f b p, every_kept f bs all)

-- Nothing that a block is for begins.
abbrev pub Follows : Option ActiveRun → Option ActiveRun → Type 0
Follows active active' =
    (b : RunBlock)
    → ((concerns b active ≡ false) → concerns b active' ≡ false)
      × ((escapes b active ≡ false) → escapes b active' ≡ false)

pub cancelled-Follows : (active : Option ActiveRun) → Follows active (cancelled_run active)
cancelled-Follows none b = (λ h. h, λ h. h)
cancelled-Follows (some r) RunBlock.all_runs = (λ h. h, λ h. refl)
cancelled-Follows (some r) (RunBlock.revoke c k m) = (λ h. h, λ h. ground arith)
cancelled-Follows (some r) (RunBlock.client_revoke c) = (λ h. h, λ h. ground arith)

pub context-Follows :
    (ids : List ℕ) (active : Option ActiveRun) → Follows active (with_context ids active).0
context-Follows ids none b = (λ h. h, λ h. h)
context-Follows ids (some r) RunBlock.all_runs = (λ h. ground arith, λ h. ground arith)
context-Follows ids (some r) (RunBlock.revoke c k m) = (λ h. ground arith, λ h. ground arith)
context-Follows ids (some r) (RunBlock.client_revoke c) = (λ h. ground arith, λ h. ground arith)

pub spawned-Follows :
    (starts : Bool) (active : Option ActiveRun) → Follows active (spawned starts active).0
spawned-Follows starts none b = (λ h. h, λ h. h)
spawned-Follows starts (some r) RunBlock.all_runs = (λ h. ground arith, λ h. ground arith)
spawned-Follows starts (some r) (RunBlock.revoke c k m) = (λ h. ground arith, λ h. ground arith)
spawned-Follows starts (some r) (RunBlock.client_revoke c) = (λ h. ground arith, λ h. ground arith)

pub none-Follows : (active : Option ActiveRun) → Follows active none
none-Follows active RunBlock.all_runs = (λ h. refl, λ h. refl)
none-Follows active (RunBlock.revoke c k m) = (λ h. refl, λ h. refl)
none-Follows active (RunBlock.client_revoke c) = (λ h. refl, λ h. refl)

abbrev pub made : Option ActiveRun → Bool → ℕ → List RunBlock → List RunBlock → Threads
made active block_new leases blocks waiting = record {
  coordinator = record { active = active; block_new = block_new };
  leases = leases;
  blocks = blocks;
  waiting = waiting;
}

pub revised-IsExclusive :
    (s : Threads) (active : Option ActiveRun)
    → IsExclusive s
    → is_some active ≡ is_some s.coordinator.active
    → Follows s.coordinator.active active
    → (is_running active && not (has_context active)) ≡ false
    → IsExclusive (made active s.coordinator.block_new s.leases s.blocks s.waiting)
revised-IsExclusive s active sound same follows context = record {
  one_run = sound.one_run ∙ ap count (sym same);
  one_block = sound.one_block;
  excluded = every_kept (λ b. (follows b).0) s.blocks sound.excluded;
  stopping = every_kept (λ b. (follows b).1) s.waiting sound.stopping;
  context = context;
}

pub starts_run-IsExclusive :
    (cancelled : Bool) (client : ℕ) (active : Option ActiveRun) (block_new : Bool) (leases : ℕ)
    (blocks waiting : List RunBlock)
    → IsExclusive (made active block_new leases blocks waiting)
    → IsExclusive
        (step (made active block_new leases blocks waiting) (Step.starts_run cancelled client))
unfolding step try_start
starts_run-IsExclusive cancelled client active true n bs ws sound = sound
starts_run-IsExclusive cancelled client (some r) false n bs ws sound = sound
starts_run-IsExclusive cancelled client none false n (b ∷ bs) ws sound =
    let one = sound.one_block in absurd (omega arith)
starts_run-IsExclusive cancelled client none false n [] (w ∷ ws) sound =
    let one = sound.one_block in absurd (omega arith)
starts_run-IsExclusive cancelled client none false n [] [] sound = record {
  one_run = let one = sound.one_run in omega arith;
  one_block = refl;
  excluded = tt;
  stopping = tt;
  context = refl;
}

-- A block of which there is one is the only one.
pub only_one :
    (bs ws : List RunBlock) (block_new : Bool) (i : ℕ) (b : RunBlock)
    → length bs + length ws ≡ count block_new
    → get_elem? bs i ≡ some b
    → (block_new ≡ true) × (bs ≡ b ∷ []) × (ws ≡ []) × (i ≡ 0)
only_one [] ws block_new i b h found = absurd cc
only_one (x ∷ []) [] true zero b h found =
    (refl, ap (λ x'. x' ∷ []) (some-injective _ _ found), refl, refl)
only_one (x ∷ []) [] true (suc i) b h found = absurd cc
only_one (x ∷ []) [] false i b h found = absurd (omega arith)
only_one (x ∷ []) (w ∷ ws) true i b h found = absurd (omega arith)
only_one (x ∷ []) (w ∷ ws) false i b h found = absurd (omega arith)
only_one (x ∷ y ∷ bs) ws true i b h found = absurd (omega arith)
only_one (x ∷ y ∷ bs) ws false i b h found = absurd (omega arith)

-- What a method that sets `block_new` leaves to wait for.
pub claimed-IsExclusive :
    (active active' : Option ActiveRun) (n : ℕ) (bs ws : List RunBlock) (b : RunBlock)
    → IsExclusive (made active false n bs ws)
    → is_some active' ≡ is_some active
    → escapes b active' ≡ false
    → (is_running active' && not (has_context active')) ≡ false
    → IsExclusive (made active' true n bs (b ∷ ws))
claimed-IsExclusive active active' n (x ∷ bs) ws b sound same stopped context =
    let one = sound.one_block in absurd (omega arith)
claimed-IsExclusive active active' n [] (w ∷ ws) b sound same stopped context =
    let one = sound.one_block in absurd (omega arith)
claimed-IsExclusive active active' n [] [] b sound same stopped context = record {
  one_run = sound.one_run ∙ ap count (sym same);
  one_block = refl;
  excluded = tt;
  stopping = (stopped, tt);
  context = context;
}

pub cancelled_context :
    (active : Option ActiveRun)
    → (is_running active && not (has_context active)) ≡ false
    → (is_running (cancelled_run active) && not (has_context (cancelled_run active))) ≡ false
cancelled_context none h = refl
cancelled_context (some r) h = h

pub cancelled_some : (active : Option ActiveRun) → is_some (cancelled_run active) ≡ is_some active
cancelled_some none = refl
cancelled_some (some r) = refl
