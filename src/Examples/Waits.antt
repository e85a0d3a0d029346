-- ===== src/Examples/Waits.antt =====
-- A runner that never reports: every wait fails, and only the pauses move the clock.
use dsh_yawn.Base.{ℕ, ◌+◌, ◌≤◌, ◌≡◌, arith}
use dsh_yawn.Exec.{failure, err}
use dsh_yawn.World.{Host}
use dsh_yawn.Attachment.{rounds, wait_loop, wait_for_runner}
use dsh_yawn.Attachment.Deadline.{IsClock, wait_for_runner-enough}
use dsh_yawn.Examples.{host, awake}

abbrev silent_host : Host ℕ
silent_host = record host {
  now = λ e. e;
  wait_for = λ id timeout e. (err (failure "no runner"), e);
  pause = λ time e. e + time;
}

silent_host-IsClock : IsClock silent_host
silent_host-IsClock = record {
  waits = λ id timeout e. omega arith;
  asks = λ c e. omega arith;
  drops = λ id e. omega arith;
  pauses = λ e. omega arith;
}

rounds-le : rounds silent_host ≤ 500
unfolding rounds
rounds-le = omega arith

wait_for_runner-enough_example :
    wait_loop silent_host 500 "box" (awake.env + 60000) awake
    ≡ wait_for_runner silent_host "box" awake
wait_for_runner-enough_example =
    wait_for_runner-enough silent_host silent_host-IsClock "box" 500 awake rounds-le
