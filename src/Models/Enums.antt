-- ===== src/Models/Enums.antt =====
-- models.py: the enumerations and their texts.
use dhava.Common.{ℕ, String, ◌<>◌, Bool, List, [], ◌∷◌, ltb, leb, str_eq, if◌then◌else◌}
use dhava.Result.{Result, ok, raise}

pub data Priority : Type 0 where
  p0 p1 p2 p3 p4 : Priority

unfoldable pub level : Priority → ℕ
level p0 = 0
level p1 = 1
level p2 = 2
level p3 = 3
level p4 = 4

-- `__lt__`, `__le__`, `__gt__` and `__ge__`
unfoldable pub priority_lt : Priority → Priority → Bool
unfolding level
priority_lt p q = ltb (level p) (level q)

unfoldable pub priority_le : Priority → Priority → Bool
unfolding level
priority_le p q = leb (level p) (level q)

unfoldable pub priority_gt : Priority → Priority → Bool
unfolding level
priority_gt p q = ltb (level q) (level p)

unfoldable pub priority_ge : Priority → Priority → Bool
unfolding level
priority_ge p q = leb (level q) (level p)

-- `for p in Priority`
abbrev pub priorities : List Priority
priorities = p0 ∷ p1 ∷ p2 ∷ p3 ∷ p4 ∷ []

abbrev pub priority_value : Priority → String
priority_value p0 = "P0"
priority_value p1 = "P1"
priority_value p2 = "P2"
priority_value p3 = "P3"
priority_value p4 = "P4"

-- An enumeration called on a text that is no value of it raises a `ValueError`.
abbrev pub invalid {ℓ} : {A : Type ℓ} → String → String → Result A
invalid s name = raise ("'" <> s <> "' is not a valid " <> name)

-- `Priority(s)`
unfoldable pub priority_of : String → Result Priority
priority_of s =
    if str_eq s "P0"
    then ok p0
    else if str_eq s "P1"
    then ok p1
    else if str_eq s "P2"
    then ok p2
    else if str_eq s "P3"
    then ok p3
    else if str_eq s "P4"
    then ok p4
    else invalid s "Priority"

pub data OperationType : Type 0 where
  create update delete merge : OperationType

abbrev pub op_type_value : OperationType → String
op_type_value create = "create"
op_type_value update = "update"
op_type_value delete = "delete"
op_type_value merge = "merge"

-- `OperationType(s)`
unfoldable pub op_type_of : String → Result OperationType
op_type_of s =
    if str_eq s "create"
    then ok create
    else if str_eq s "update"
    then ok update
    else if str_eq s "delete"
    then ok delete
    else if str_eq s "merge"
    then ok merge
    else invalid s "OperationType"

pub data SyncState : Type 0 where
  pending synced failed conflicted : SyncState

abbrev pub sync_state_value : SyncState → String
sync_state_value pending = "pending"
sync_state_value synced = "synced"
sync_state_value failed = "failed"
sync_state_value conflicted = "conflicted"

-- `SyncState(s)`
unfoldable pub sync_state_of : String → Result SyncState
sync_state_of s =
    if str_eq s "pending"
    then ok pending
    else if str_eq s "synced"
    then ok synced
    else if str_eq s "failed"
    then ok failed
    else if str_eq s "conflicted"
    then ok conflicted
    else invalid s "SyncState"
