-- ===== src/Orchestration/Sample.antt =====
-- Identifiers that the tests of internal/orchestration share.
use stammtisch.Prelude.{ℕ, [], ◌∷◌, arith}
use stammtisch.Prelude.Bytes.{Bytes}
use stammtisch.Orchestration.EntityId.{EntityId, IsValid}

abbrev pub host : Bytes
host = b'h' ∷ []

abbrev pub named : ℕ → EntityId
named b = record { local = b ∷ []; host = host }

abbrev pub alice : EntityId
alice = named b'a'

abbrev pub bob : EntityId
bob = named b'b'

abbrev pub lobby : EntityId
lobby = named b'l'

abbrev pub hall : EntityId
hall = named b'm'

abbrev pub home : EntityId
home = named b's'

pub alice-IsValid : IsValid alice
alice-IsValid = record { local_part = ground arith; host_part = ground arith }

pub bob-IsValid : IsValid bob
bob-IsValid = record { local_part = ground arith; host_part = ground arith }

pub lobby-IsValid : IsValid lobby
lobby-IsValid = record { local_part = ground arith; host_part = ground arith }

pub home-IsValid : IsValid home
home-IsValid = record { local_part = ground arith; host_part = ground arith }
