-- ===== src/Store/Profile.antt =====
-- src/state.rs: what a storage profile is called, and what it asks of SQLite.
use cede_grid.Common.{
  ℕ, String, ◌==◌, String_eq, ◌≡◌, arith, if◌then◌else◌, Result, ok, err, eq_iff, refl, subst, sym,
  ◌↔◌,
}
use cede_grid.Store.Tables.{StorageProfile, is_replayable}

pub data ProfileError : Type 0 where
  unknown_profile : ProfileError

pub data StorageAssurance : Type 0 where
  durable_local replayable_local : StorageAssurance

unfoldable pub name : StorageProfile → String
name StorageProfile.wal_full = "wal_full"
name StorageProfile.delete_extra = "delete_extra"
name StorageProfile.burst_replay_delete_extra = "burst_replay_delete_extra"

unfoldable pub journal_mode : StorageProfile → String
journal_mode StorageProfile.wal_full = "wal"
journal_mode _ = "delete"

-- `SCHEMA_VERSION`, `DELETE_EXTRA_SCHEMA_VERSION` and `MAX_SCHEMA_VERSION`
abbrev pub unified_schema : ℕ
unified_schema = 5

unfoldable pub schema_version : StorageProfile → ℕ
schema_version _ = unified_schema

unfoldable pub synchronous : StorageProfile → ℕ
synchronous StorageProfile.wal_full = 2
synchronous _ = 3

unfoldable pub assurance : StorageProfile → StorageAssurance
assurance profile =
    if is_replayable profile
    then StorageAssurance.replayable_local
    else StorageAssurance.durable_local

unfoldable pub parse : String → Result ProfileError StorageProfile
parse text =
    if text == "wal_full"
    then ok StorageProfile.wal_full
    else if text == "delete_extra"
    then ok StorageProfile.delete_extra
    else if text == "burst_replay_delete_extra"
    then ok StorageProfile.burst_replay_delete_extra
    else err ProfileError.unknown_profile

parse_sound :
    (text : String) (profile : StorageProfile) → parse text ≡ ok profile → text ≡ name profile
unfolding parse name
parse_sound text profile h = ground (
  arith,
  h,
  eq_iff text "wal_full",
  eq_iff text "delete_extra",
  eq_iff text "burst_replay_delete_extra",
)

parse_complete : (profile : StorageProfile) → parse (name profile) ≡ ok profile
unfolding parse name
parse_complete StorageProfile.wal_full = refl
parse_complete StorageProfile.delete_extra = refl
parse_complete StorageProfile.burst_replay_delete_extra = refl

-- A text is read as a profile if and only if it is the name that is written for the profile.
pub parse-name :
    (text : String) (profile : StorageProfile) → (parse text ≡ ok profile) ↔ (text ≡ name profile)
parse-name text profile = (
  parse_sound text profile,
  λ e. subst (λ x. parse x ≡ ok profile) (sym e) (parse_complete profile),
)
