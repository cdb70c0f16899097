-- ===== src/Ring/Segment/Tests.antt =====
-- What is left behind in a system with one descriptor and one address.
use lw_ipc.Base.{◌≡◌, refl, true, false, some}
use lw_ipc.Ring.Segment.{construct, destroy, size_segment, map_segment}
use lw_ipc.Ring.Segment.Resources.{Outcome}
use lw_ipc.Ring.Segment.Opening.{construct_lem}
use lw_ipc.Ring.Segment.Sample.{system, opened_in, mapped_in, system-Documented, boot}

-- With address space, a ring is built and gives back what it had; without, descriptor 3 stays open.
given_back :
    (destroy
        (system true)
        (record { is_owner = true; fd = some 3; ctrl = some 4096 })
        (construct (system true) true boot).1).opened
      3
    ≡ false
unfolding construct size_segment map_segment destroy
given_back = refl

left_open : (construct (system false) true boot).1.opened 3 ≡ true
unfolding construct size_segment map_segment
left_open = refl

construct_lem_example :
    Outcome opened_in mapped_in (system false) true boot (construct (system false) true boot)
construct_lem_example =
    construct_lem (system false) opened_in mapped_in (system-Documented false) true boot
