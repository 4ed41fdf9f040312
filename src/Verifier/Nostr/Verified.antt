-- ===== src/Verifier/Nostr/Verified.antt =====
-- The event that reports a verdict, `post_verified` of verifier-service/src/nostr.rs.
use near_escrow.Shared.Tests.{ℕ, Bool, true, false, some, List, [], ◌∷◌}
use near_escrow.Text.Bytes.{Text, ascii}
use near_escrow.Text.Decimal.{decimal}
use near_escrow.Verifier.Nostr.{single_letter, custom, Tag}

-- What `post_verified` is given, besides the original event.
pub record Report : Type 0 where
  pub original_event : Text
  pub job_id : Text
  pub verifier_account : Text
  pub verifier_did : Text
  pub patch_id : Text
  pub passed : Bool
  pub score : ℕ
  pub method : Text
  pub duration_ms : ℕ
  pub detail : Text

-- `Tag::custom`
abbrev pub tag_of : Text → Text → Tag
tag_of name value = record { kind = custom name; content = some value }

-- `Tag::event`
abbrev pub event_tag : Text → Tag
event_tag id = record { kind = single_letter (ascii "e"); content = some id }

abbrev pub bool_text : Bool → Text
bool_text true = ascii "true"
bool_text false = ascii "false"

-- The tags of the event of kind 41006.
unfoldable pub verified_tags : Report → List Tag
verified_tags r =
    event_tag r.original_event
    ∷ tag_of (ascii "job_id") r.job_id
    ∷ tag_of (ascii "verifier") r.verifier_account
    ∷ tag_of (ascii "verifier_did") r.verifier_did
    ∷ tag_of (ascii "patch_id") r.patch_id
    ∷ tag_of (ascii "passed") (bool_text r.passed)
    ∷ tag_of (ascii "score") (decimal r.score)
    ∷ tag_of (ascii "duration_ms") (decimal r.duration_ms)
    ∷ tag_of (ascii "method") r.method
    ∷ []
