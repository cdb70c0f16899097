-- ===== src/Registry/Tests.antt =====
-- A registry with the channels "/a" and "/b", and the theorems at it.
use lw_ipc.Base.{ℕ, ◌≡◌, ◌≢◌, ◌↔◌, refl, true, false, List, [], ◌∷◌, arith}
use lw_ipc.Message.{imu, tensor}
use lw_ipc.Registry.{
  ChannelRegistry, new_registry, register_channel, unregister_channel, contains, discover, list,
  active, keep, matches, strncpy, strncmp_equal, change_first, c_string, list_type,
}
use lw_ipc.Registry.Table.{IsNamed, Registered, register_channel_lem}
use lw_ipc.Registry.Names.{key}
use lw_ipc.Registry.Distinct.{
  Distinct, new_registry-Distinct, register_channel-Distinct, unregister_channel_lem,
}
use lw_ipc.Ring.Segment.Sample.{system, opened_in, mapped_in, system-Documented, boot}
use lw_ipc.Registry.Segment.{Opened, open_or_create, open_or_create_lem}

abbrev name_a : List ℕ
name_a = 47 ∷ 97 ∷ []

abbrev name_b : List ℕ
name_b = 47 ∷ 98 ∷ []

name_a-IsNamed : IsNamed name_a
unfolding c_string
name_a-IsNamed e = ground arith

name_b-IsNamed : IsNamed name_b
unfolding c_string
name_b-IsNamed e = ground arith

abbrev one : ChannelRegistry
one = (register_channel name_a imu 7 100 1000 new_registry).1

abbrev two : ChannelRegistry
two = (register_channel name_b tensor 8 100 2000 one).1

discover_runs : discover imu two ≡ name_a ∷ []
unfolding discover list_type list keep active register_channel change_first matches strncpy
    strncmp_equal c_string
discover_runs = refl

one_mapped : one.header ≡ true
unfolding register_channel change_first matches active
one_mapped = refl

one-Distinct : Distinct one.table
one-Distinct =
    register_channel-Distinct name_a imu 7 100 1000 new_registry refl new_registry-Distinct
      name_a-IsNamed

register_channel_lem_example :
    Registered name_b name_a one (register_channel name_b tensor 8 100 2000 one)
register_channel_lem_example =
    register_channel_lem name_b name_a tensor 8 100 2000 one one_mapped name_b-IsNamed

unregister_channel_lem_example :
    ((contains name_b (unregister_channel name_a one) ≡ true)
      ↔ ((contains name_b one ≡ true) × (key 63 name_a ≢ key 63 name_b)))
    × Distinct (unregister_channel name_a one).table
unregister_channel_lem_example = unregister_channel_lem name_a one one_mapped one-Distinct name_b

open_or_create_lem_example :
    Opened opened_in mapped_in (system false) boot (open_or_create (system false) boot)
open_or_create_lem_example =
    open_or_create_lem (system false) opened_in mapped_in (system-Documented false) boot
