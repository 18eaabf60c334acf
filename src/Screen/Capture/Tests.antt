-- ===== src/Screen/Capture/Tests.antt =====
-- A board with a screen that is ready.
use nano_ql.Base.{
  ℕ, ◌≡◌, refl, false, ◌&&◌, none, [], ◌∷◌, ◌++◌, ◌==◌, not, if◌then◌else◌, codes, length,
  starts_with, to_be,
}
use nano_ql.Base.Exec.{ok, is_ok, ok_or}
use nano_ql.Link.Bench.{peek, act, say, answer, bench, link}
use nano_ql.Link.Memory.{read_request}
use nano_ql.Link.Transport.{Transport, Link}
use nano_ql.Screen.Capture.{screenshot}
use nano_ql.Screen.Capture.Quiet.{ScreenLaws, screenshot_quiet}

unfoldable screen_bench : Transport
unfolding bench
screen_bench = record bench {
  transact = λ b e.
      if starts_with b (0x12 ∷ [])
      then (ok (codes "SC1" ++ (1 ∷ 0 ∷ [])), e)
      else bench.transact b e;
}

unfoldable screen_link : Link screen_bench
unfolding screen_bench link bench
screen_link = record {
  env = link.env;
  drive_firmware_build = none;
  keyboard_layout = "uk";
  ql_layout = "uk";
}

unfoldable memory_of : screen_bench.Env → ℕ → ℕ
unfolding screen_bench bench
memory_of e = e.memory

screen_laws : ScreenLaws screen_bench memory_of
unfolding memory_of screen_bench bench answer act say peek starts_with read_request to_be
screen_laws = record {
  status_keeps = λ e. refl;
  info_keeps = λ e. refl;
  start_keeps = λ e. refl;
  end_keeps = λ e. refl;
  read_keeps = λ a e. refl;
  result_keeps = λ e. refl;
  sleep_keeps = λ ms e. refl;
}

screenshot_quiet_example :
    let r = (screenshot screen_bench screen_link).0 in
    (memory_of (screenshot screen_bench screen_link).1.env ≡ memory_of screen_link.env)
    × ((is_ok r && not (length (ok_or ([], 0) r).0 == 32768)) ≡ false)
screenshot_quiet_example = screenshot_quiet screen_bench memory_of screen_laws screen_link
