-- ===== src/Main/Failed.antt =====
-- The start of main.c that ends in a fault, and the first call of Task_Lot after it.
use smart_parking_system_nti.Prelude.{
  ◌≡◌, refl, ap, ◌∙◌, ◌!=◌, flag, ◌&&◌, ◌==◌, not, choose, ReturnType, e_ok, e_nok, arith,
}
use smart_parking_system_nti.Config.{servo_open_us}
use smart_parking_system_nti.Barrier.{open_barrier}
use smart_parking_system_nti.Barrier.Position.{pulse}
use smart_parking_system_nti.Lane.{bar_open}
use smart_parking_system_nti.Lot
use smart_parking_system_nti.Lot.{LotState, initial, fault, is_maintenance, set_fault}
use smart_parking_system_nti.Lot.Modes.{run_mode}
use smart_parking_system_nti.Main.{System, Glue, send, send_event}
use smart_parking_system_nti.Main.Tasks.{
  task_lot, scan_lot, update_full_sign, follow_lot, task_display,
}
use smart_parking_system_nti.Main.Boot.{
  attempt, on_board, init_mcal, init_hal, init_app, init_scheduler, initialise, before_init,
  first_frame, announce, boot, init_lot, init_light, init_console, init_lanes, init_entry_loop,
  init_exit_loop,
}
use smart_parking_system_nti.Board.Timer0
use smart_parking_system_nti.Main.Start.{IsShut, attempt-state, glue-mcal, glue-hal, boot-IsShut}
use smart_parking_system_nti.Main.Rounds.{IsSafe}
use smart_parking_system_nti.Main.Rounds.Lot.{sign-IsStill}

-- what the start leaves alone of the program's own state: the mode that was last reported
abbrev reported : System → LotState
reported y = y.glue.prev_lot_state

glue-app : (y : System) → (init_app y).1.glue ≡ y.glue
unfolding init_app attempt init_lot init_light init_console init_lanes init_entry_loop
    init_exit_loop
glue-app y = refl

glue-scheduler : (y : System) → (init_scheduler y).1.glue ≡ y.glue
unfolding init_scheduler
glue-scheduler y = refl

glue-initialise : (y : System) → (initialise y).1.glue ≡ y.glue
unfolding initialise
glue-initialise y =
    let glue : System → Glue = λ y'. y'.glue in
    let r1 = attempt (e_ok, y) init_mcal in
    let r2 = attempt r1 init_hal in
    let r3 = attempt r2 init_app in
    ap glue (attempt-state r3 init_scheduler)
    ∙ glue-scheduler r3.1
    ∙ ap glue (attempt-state r2 init_app)
    ∙ glue-app r2.1
    ∙ ap glue (attempt-state r1 init_hal)
    ∙ glue-hal r1.1
    ∙ ap glue (attempt-state (e_ok, y) init_mcal)
    ∙ glue-mcal y

-- after a start that failed, the lot is in fault, and the mode last reported is as before
announce-fault :
    (cause : _) (r : ReturnType) (y : System)
    → r ≡ e_nok
    → (announce cause (r, y)).site.lot.state ≡ fault
unfolding announce set_fault send_event send
announce-fault cause e_nok y h = refl
announce-fault cause e_ok y h = absurd (ground arith)

glue-announce : (cause : _) (r : ReturnType) (y : System) → (announce cause (r, y)).glue ≡ y.glue
unfolding announce
glue-announce cause r y = refl

glue-boot : (y : System) → (boot y).glue ≡ y.glue
unfolding boot first_frame task_display Timer0.start before_init
glue-boot y =
    let up = initialise (before_init y) in
    let started = (on_board Timer0.start (first_frame up.1)).1 in
    glue-announce y.site.board.exti.mcucsr up.0 started ∙ glue-initialise (before_init y)

boot-fault : (y : System) → (initialise (before_init y)).0 ≡ e_nok → (boot y).site.lot.state ≡ fault
unfolding boot
boot-fault y failed =
    let up = initialise (before_init y) in
    announce-fault y.site.board.exti.mcucsr up.0 (on_board Timer0.start (first_frame up.1)).1 failed

reported-sign : (y : System) → reported (update_full_sign y) ≡ reported y
unfolding update_full_sign
reported-sign y =
    choose (λ (y' : System). reported y' ≡ reported y)
      (flag (y.site.lot.free_slots == 0 && not (is_maintenance y.site.lot.state))
        != y.glue.prev_full_sign)
      refl refl

-- both barriers are driven open
abbrev pub IsOpen : System → Type 0
IsOpen y = (pulse y.site.board 0 ≡ servo_open_us) × (pulse y.site.board 1 ≡ servo_open_us)

follow-IsOpen :
    (y : System) → y.site.lot.state ≡ fault → reported y ≡ initial → IsOpen (follow_lot y)
unfolding follow_lot send_event send pulse bar_open open_barrier
follow-IsOpen y f i = rw (f, i) (refl, refl)

lot-IsOpen : (y : System) → y.site.lot.state ≡ fault → reported y ≡ initial → IsOpen (task_lot y)
unfolding task_lot scan_lot
lot-IsOpen y f i =
    let y1 = record y { site = scan_lot y.site } in
    let kept = (run_mode y.site.lot y.site.slots y.site.board.dio).1 f in
    follow-IsOpen (update_full_sign y1) (ap (λ (l : Lot.Lot). l.state) (sign-IsStill y1).1 ∙ kept)
      (reported-sign y1 ∙ i)

-- From static variables as their initialisers leave them, whatever fails on the way, the start leaves
-- both barriers closed and both lanes idle on their own channels, so the barriers follow the lanes
-- when the super-loop begins. If anything failed, the lot is in its fault mode then, and a call of
-- Task_Lot from there opens both barriers: the start itself does not, though the comment in main.c
-- speaks of open barriers.
pub boot_lem :
    (y : System)
    → y.glue.in_maintenance ≡ 0
    → y.glue.prev_lot_state ≡ initial
    → IsShut (boot y)
      × IsSafe (boot y)
      × ((initialise (before_init y)).0 ≡ e_nok
          → ((boot y).site.lot.state ≡ fault) × IsOpen (task_lot (boot y)))
boot_lem y out none_reported =
    let (shut, safe) = boot-IsShut y out in
    (
      shut,
      safe,
      λ failed.
          let faulty = boot-fault y failed in
          let first : reported (boot y) ≡ initial =
            ap (λ (g : Glue). g.prev_lot_state) (glue-boot y) ∙ none_reported in
          (faulty, lot-IsOpen (boot y) faulty first),
    )
