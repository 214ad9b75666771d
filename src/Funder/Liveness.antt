-- ===== src/Funder/Liveness.antt =====
-- components/funder/src/liveness.rs and ephemeral.rs: which friends are online. The set is a list
-- without repeats.
use offst.Prelude.{Bool, List, [], ◌∷◌, ◌==◌, if◌then◌else◌}
use offst.Crypto.{PublicKey}
use offst.Route.{contains}

pub record Liveness : Type 0 where
  pub friends : List PublicKey

pub data LivenessMutation : Type 0 where
  set_online set_offline : PublicKey → LivenessMutation

-- `insert` and `remove` of the set.
abbrev pub set_insert : PublicKey → List PublicKey → List PublicKey
set_insert pk s = if contains pk s then s else pk ∷ s

unfoldable pub set_remove : PublicKey → List PublicKey → List PublicKey
set_remove pk [] = []
set_remove pk (x ∷ xs) = let rest = set_remove pk xs in if x == pk then rest else x ∷ rest

abbrev pub new_liveness : Liveness
new_liveness = record { friends = [] }

unfoldable pub mutate_liveness : LivenessMutation → Liveness → Liveness
mutate_liveness (set_online pk) l = record { friends = set_insert pk l.friends }
mutate_liveness (set_offline pk) l = record { friends = set_remove pk l.friends }

unfoldable pub is_online : Liveness → PublicKey → Bool
is_online l pk = contains pk l.friends

pub record Ephemeral : Type 0 where
  pub liveness : Liveness

pub data EphemeralMutation : Type 0 where
  liveness_mutation : LivenessMutation → EphemeralMutation

abbrev pub new_ephemeral : Ephemeral
new_ephemeral = record { liveness = new_liveness }

abbrev pub mutate_ephemeral : EphemeralMutation → Ephemeral → Ephemeral
mutate_ephemeral (liveness_mutation m) e = record { liveness = mutate_liveness m e.liveness }
