-- ===== src/Models/Status.antt =====
-- internal/store/models.go: the string types of the states, with a constructor for each constant.
use cadenza.Prelude.{String, ◌≡◌, refl, Bool, true, false, str_eq, eq_iff, ap}

-- `TaskStatus`; `other s` is a text that is none of the constants.
pub data TaskStatus : Type 0 where
  pending generating validating awaiting_approval applying done rejected failed : TaskStatus
  other : String → TaskStatus

unfoldable pub same_status : TaskStatus → TaskStatus → Bool
same_status pending pending = true
same_status generating generating = true
same_status validating validating = true
same_status awaiting_approval awaiting_approval = true
same_status applying applying = true
same_status done done = true
same_status rejected rejected = true
same_status failed failed = true
same_status (other s) (other t) = str_eq s t
same_status _ _ = false

-- The text of a status.
abbrev pub status_text : TaskStatus → String
status_text pending = "pending"
status_text generating = "generating"
status_text validating = "validating"
status_text awaiting_approval = "awaiting_approval"
status_text applying = "applying"
status_text done = "done"
status_text rejected = "rejected"
status_text failed = "failed"
status_text (other s) = s

-- The zero value of `CollectorStatus` is `unset`.
pub data CollectorStatus : Type 0 where
  healthy unhealthy offline unknown unset : CollectorStatus

-- The text of a status of a collector.
abbrev pub status_word : CollectorStatus → String
status_word healthy = "healthy"
status_word unhealthy = "unhealthy"
status_word offline = "offline"
status_word unknown = "unknown"
status_word unset = ""

pub eq_of_same_status : (s t : TaskStatus) → same_status s t ≡ true → s ≡ t
unfolding same_status
eq_of_same_status pending pending h = refl
eq_of_same_status generating generating h = refl
eq_of_same_status validating validating h = refl
eq_of_same_status awaiting_approval awaiting_approval h = refl
eq_of_same_status applying applying h = refl
eq_of_same_status done done h = refl
eq_of_same_status rejected rejected h = refl
eq_of_same_status failed failed h = refl
eq_of_same_status (other s) (other t) h = ap other ((eq_iff s t).0 h)
eq_of_same_status _ _ h = cc
