-- ===== src/Store/Memory/Examples.antt =====
-- Runs of internal/store.
use stammtisch.Prelude.{◌≡◌, ◌↔◌, ◌≢◌, refl, true, false, [], ◌∷◌, List, some, inl, inr}
use stammtisch.Prelude.Bytes.{bytes}
use stammtisch.Prelude.Int.{pos, ◌≤ℤ◌}
use stammtisch.Prelude.Map.{lookup}
use stammtisch.Orchestration.EntityId.{is_zero}
use stammtisch.Orchestration.Domain.{Channel}
use stammtisch.Orchestration.Permission.{
  Subject, person, has, allow, see_channel, speak_in_channel, channel_subject,
}
use stammtisch.Orchestration.Permission.Sets.{IsDeclared}
use stammtisch.Orchestration.Sample.{
  alice, bob, lobby, home, alice-IsValid, bob-IsValid, lobby-IsValid, home-IsValid,
}
use stammtisch.Store.{default_gain, min_gain, max_gain}
use stammtisch.Store.Memory.{
  GainKey, gain_key, new_memory, get_gain, granted, StoreCall, puts_channel, puts_member, grants_to,
  sets_gain, store_run,
}
use stammtisch.Store.Memory.Grants.{Holds, IsSubject, AreIdents, granted-store_run, allow-store_run}
use stammtisch.Store.Memory.Gains.{get_gain-le-max_gain}
use stammtisch.Store.Memory.Channels.{AreNamed}

abbrev table : Channel
table = record { id = lobby; space = home; name = bytes "Table"; always_on = false }

abbrev at_table : Subject
at_table = channel_subject home lobby

-- One channel, two members, a grant and a gain.
abbrev history : List StoreCall
history =
    puts_channel table
    ∷ puts_member home bob
    ∷ puts_member home alice
    ∷ grants_to alice at_table (speak_in_channel ∷ see_channel ∷ [])
    ∷ sets_gain alice bob (pos 40)
    ∷ []

at_table-IsSubject : IsSubject at_table
at_table-IsSubject = record { of_space = inl home-IsValid; of_channel = inl lobby-IsValid }

history-AreIdents : AreIdents history
history-AreIdents = (inl alice-IsValid, at_table-IsSubject, tt)

history-AreNamed : AreNamed history
history-AreNamed = (lobby-IsValid, (home-IsValid, bob-IsValid, (home-IsValid, alice-IsValid, tt)))

granted-store_run_example :
    (has (granted (store_run new_memory history) (person alice) at_table) speak_in_channel ≡ true)
    ↔ (IsDeclared speak_in_channel × Holds history alice at_table speak_in_channel)
granted-store_run_example =
    granted-store_run history (person alice) at_table speak_in_channel history-AreIdents
      (inl alice-IsValid) at_table-IsSubject

allow-store_run_example :
    (allow (some (granted (store_run new_memory history))) (person alice) speak_in_channel at_table
      ≡ true)
    ↔ ((is_zero alice ≡ false)
        × (is_zero home ≡ false)
        × (is_zero lobby ≡ false)
        × Holds history alice at_table see_channel
        × Holds history alice at_table speak_in_channel)
allow-store_run_example =
    allow-store_run history (person alice) speak_in_channel at_table history-AreIdents
      (inl alice-IsValid) at_table-IsSubject tt

get_gain-le-max_gain_example :
    (min_gain ≤ℤ get_gain (store_run new_memory history) alice bob)
    × (get_gain (store_run new_memory history) alice bob ≤ℤ max_gain)
    × ((k : GainKey) → lookup k (store_run new_memory history).gains ≢ some default_gain)
get_gain-le-max_gain_example = get_gain-le-max_gain history alice bob

speech_granted : Holds history alice at_table speak_in_channel
unfolding is_zero
speech_granted = inl (refl, refl, inl refl, refl, refl, (tt, (tt, tt)))

sight_granted : Holds history alice at_table see_channel
unfolding is_zero
sight_granted = inl (refl, refl, inr (inl refl), refl, refl, (tt, (tt, tt)))

-- With the grants of the history, alice may speak at the table.
may_speak :
    allow (some (granted (store_run new_memory history))) (person alice) speak_in_channel at_table
    ≡ true
unfolding is_zero
may_speak =
    (allow-store_run history (person alice) speak_in_channel at_table history-AreIdents
        (inl alice-IsValid) at_table-IsSubject tt).1
      (refl, refl, refl, sight_granted, speech_granted)
