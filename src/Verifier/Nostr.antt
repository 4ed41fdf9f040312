-- ===== src/Verifier/Nostr.antt =====
-- The Nostr events, verifier-service/src/nostr.rs: their parsing, their routing to the channels and
-- the event that reports a verdict.
pub mod Verified
pub mod ReadBack
use near_escrow.Shared.Tests.{
  ℕ, ◌+◌, ◌-◌, ◌*◌, Bool, true, false, ◌&&◌, Option, none, some, List, [], ◌∷◌, leb, ltb, nat_eq,
  if◌then◌else◌, unwrap_or, u64_mod, u8_mod,
}
use near_escrow.Shared.Lists.{get_elem?}
use near_escrow.Text.Bytes.{Text, ascii, ◌==◌}
use near_escrow.Text.Decimal.{decimal}

-- The kind that the nostr crate gives a tag for its name: a single letter, a kind of which it has a
-- constructor of its own, or a custom one.
pub data TagKind : Type 0 where
  single_letter standard custom : (name : Text) → TagKind

-- A tag with its first value.
pub record Tag : Type 0 where
  pub kind : TagKind
  pub content : Option Text

pub record Event : Type 0 where
  pub id : Text
  pub pubkey : Text
  pub kind : ℕ  -- u16
  pub tags : List Tag
  pub content : Text

-- `t.kind() == TagKind::Custom(key.into())`
abbrev pub is_custom : Text → TagKind → Bool
is_custom key (custom name) = name == key
is_custom key _ = false

-- `get_tags`: the values of the tags of one custom kind, in order.
unfoldable pub get_tags : List Tag → Text → List Text
get_tags [] key = []
get_tags (t ∷ tags) key =
    let rest = get_tags tags key in
    if is_custom key t.kind then elim t.content [ none ↦ rest | some c ↦ c ∷ rest ] else rest

unfoldable pub get_tag : List Tag → Text → Option Text
get_tag tags key = get_elem? (get_tags tags key) 0

-- `str::parse` on an unsigned type below `bound`: digits, with a plus sign before them allowed.
unfoldable pub parse_digits : ℕ → ℕ → Text → Option ℕ
parse_digits bound acc [] = some acc
parse_digits bound acc (c ∷ s) =
    let next = acc * 10 + (c - b'0') in
    let rest = parse_digits bound next s in
    if leb b'0' c && leb c b'9' && ltb next bound then rest else none

unfoldable pub parse_unsigned : ℕ → Text → Option ℕ
unfolding parse_digits
parse_unsigned bound [] = none
parse_unsigned bound (c ∷ []) = if nat_eq c b'+' then none else parse_digits bound 0 (c ∷ [])
parse_unsigned bound (c ∷ d ∷ s) = parse_digits bound 0 (if nat_eq c b'+' then d ∷ s else c ∷ d ∷ s)

abbrev pub parse_tag : ℕ → Option Text → Option ℕ
parse_tag bound none = none
parse_tag bound (some s) = parse_unsigned bound s

pub record TaskEvent : Type 0 where
  pub event_id : Text
  pub pubkey : Text
  pub job_id : Text
  pub reward_amount : Text
  pub reward_token : Text
  pub timeout_hours : ℕ
  pub agent_msig : Text
  pub escrow_contract : Text
  pub repo_rid : Text
  pub verifier_did : Option Text
  pub verifier_fee : Option Text
  pub score_threshold : Option ℕ
  pub category : Option Text
  pub skills : List Text
  pub description : Text
  pub verify_hash : Option Text

-- The record of a task once its three required tags are read.
abbrev task_of : Event → Text → Text → Text → TaskEvent
task_of e job_id agent escrow =
    let reward_parts = get_tags e.tags (ascii "reward") in
    record {
      event_id = e.id;
      pubkey = e.pubkey;
      job_id = job_id;
      reward_amount = unwrap_or (get_elem? reward_parts 0) [];
      reward_token = unwrap_or (get_elem? reward_parts 1) (ascii "near");
      timeout_hours = unwrap_or (parse_tag u64_mod (get_tag e.tags (ascii "timeout"))) 24;
      agent_msig = agent;
      escrow_contract = escrow;
      repo_rid = unwrap_or (get_tag e.tags (ascii "repo_rid")) [];
      verifier_did = get_tag e.tags (ascii "verifier_did");
      verifier_fee = get_tag e.tags (ascii "verifier_fee");
      score_threshold = parse_tag u8_mod (get_tag e.tags (ascii "score_threshold"));
      category = get_tag e.tags (ascii "category");
      skills = get_tags e.tags (ascii "skills");
      description = e.content;
      verify_hash = get_tag e.tags (ascii "verify_hash");
    }

-- `?` on an optional value.
infixl 5 ◌>>=◌
abbrev ◌>>=◌ : {A B : Type 0} → Option A → (A → Option B) → Option B
none >>= f = none
some a >>= f = f a

read_task : Event → Option TaskEvent
read_task e = do
  job_id ← get_tag e.tags (ascii "job_id")
  agent ← get_tag e.tags (ascii "agent")
  escrow ← get_tag e.tags (ascii "escrow")
  some (task_of e job_id agent escrow)

-- `TaskEvent::parse`
unfoldable pub parse_task : Event → Option TaskEvent
unfolding read_task
parse_task e = if nat_eq e.kind 41000 then read_task e else none

pub record WorkerResultEvent : Type 0 where
  pub event_id : Text
  pub pubkey : Text
  pub job_id : Text
  pub worker_msig : Text
  pub patch_id : Text
  pub branch : Option Text
  pub summary : Text

read_result : Event → Option WorkerResultEvent
read_result e = do
  job_id ← get_tag e.tags (ascii "job_id")
  worker_msig ← get_tag e.tags (ascii "worker_msig")
  some (record {
    event_id = e.id;
    pubkey = e.pubkey;
    job_id = job_id;
    worker_msig = worker_msig;
    patch_id = unwrap_or (get_tag e.tags (ascii "patch_id")) [];
    branch = get_tag e.tags (ascii "branch");
    summary = e.content;
  })

-- `WorkerResultEvent::parse`
unfoldable pub parse_result : Event → Option WorkerResultEvent
unfolding read_result
parse_result e = if nat_eq e.kind 41002 then read_result e else none

pub record FundedEvent : Type 0 where
  pub event_id : Text
  pub original_task_event_id : Option Text
  pub job_id : Text

-- `t.kind() == TagKind::e()`
abbrev is_e : TagKind → Bool
is_e (single_letter name) = name == ascii "e"
is_e _ = false

-- `find` on the `e` tag; the parser of event ids is an argument.
first_e : List Tag → Option Tag
first_e [] = none
first_e (t ∷ tags) = let rest = first_e tags in if is_e t.kind then some t else rest

task_event_id : (Text → Option Text) → List Tag → Option Text
unfolding first_e
task_event_id read_id tags = do t ← first_e tags; hex ← t.content; read_id hex

read_funded : (Text → Option Text) → Event → Option FundedEvent
unfolding task_event_id
read_funded read_id e = do
  job_id ← get_tag e.tags (ascii "job_id")
  some (record {
    event_id = e.id;
    original_task_event_id = task_event_id read_id e.tags;
    job_id = job_id;
  })

-- `FundedEvent::parse`
unfoldable pub parse_funded : (Text → Option Text) → Event → Option FundedEvent
unfolding read_funded
parse_funded read_id e = if nat_eq e.kind 41004 then read_funded read_id e else none

-- What goes into one of the three channels.
pub data Incoming : Type 0 where
  task : TaskEvent → Incoming
  result : WorkerResultEvent → Incoming
  funded : FundedEvent → Incoming

abbrev into {ℓ} : {A : Type ℓ} → (A → Incoming) → Option A → Option Incoming
into f none = none
into f (some a) = some (f a)

-- The task that `subscribe` spawns, on one notification.
unfoldable pub route : (Text → Option Text) → Event → Option Incoming
route read_id e =
    if nat_eq e.kind 41000
    then into task (parse_task e)
    else if nat_eq e.kind 41002
    then into result (parse_result e)
    else if nat_eq e.kind 41004
    then into funded (parse_funded read_id e)
    else none
