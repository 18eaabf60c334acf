-- ===== src/Link/Bench.antt =====
-- A concrete board for the tests: a transport that answers every request, with the laws that the
-- theorems ask for.
use nano_ql.Base.{
  ℕ, ◌+◌, ◌*◌, ◌/◌, ◌%◌, ◌^◌, ◌<◌, ◌≡◌, refl, ◌≢◌, none, [], ◌∷◌, ◌++◌, arith, ◌==◌, if◌then◌else◌,
  codes, length, take, drop, Bytes, to_be,
}
use nano_ql.Base.Exec.{os_error, out_of_rounds, Result, ok, err}
use nano_ql.Link.Memory.Board.{stored, bytes_at}
use nano_ql.Link.Memory.Desk.{rest}
use nano_ql.Link.Transport.{Transport, TimeLaws, Link}

pub record Bench : Type 0 where
  pub memory : ℕ → ℕ
  pub register : ℕ → ℕ
  pub staged : Bytes
  pub file : Bytes
  pub loaded : Bytes
  pub configured : Bytes
  pub clock : ℕ
  pub time_limit : ℕ

-- A number in the bytes of a request.
abbrev be3 : ℕ → ℕ → ℕ → ℕ
be3 a b c = (a * 256 + b) * 256 + c

abbrev be4 : ℕ → ℕ → ℕ → ℕ → ℕ
be4 a b c d = be3 a b c * 256 + d

unfoldable pub poke : Bytes → Bench → Bench
unfolding stored
poke (a ∷ b ∷ c ∷ n ∷ block) e = record e { memory = stored (be3 a b c) block e.memory }
poke _ e = e

unfoldable pub peek : Bytes → Bench → Bench
peek (a ∷ b ∷ c ∷ _) e = record e { register = λ i. e.memory (be3 a b c + i) }
peek _ e = e

unfoldable pub put : Bytes → Bench → Bench
put (_ ∷ _ ∷ _ ∷ _ ∷ block) e = record e { staged = e.staged ++ block }
put _ e = e

unfoldable pub serve : Bytes → Bench → Bytes
serve (a ∷ b ∷ c ∷ d ∷ n ∷ []) e =
    let block = take n (drop (be4 a b c d) e.file) in length block ∷ block
serve _ e = []

-- The commands of writing, reading, uploads, downloads and programming; all else is a status.
unfoldable pub act : ℕ → Bytes → Bench → Bench
unfolding poke peek put
act command rest e =
    if command == 0x02
    then poke rest e
    else if command == 0x06
    then peek rest e
    else if command == 0xE4
    then put rest e
    else if command == 0xF0
    then record e { loaded = [] }
    else if command == 0xF1
    then record e { loaded = e.loaded ++ rest }
    else if command == 0xF2
    then record e { configured = e.loaded }
    else e

unfoldable pub say : ℕ → Bytes → Bench → Bytes
unfolding serve bytes_at
say command rest e =
    if command == 0x07
    then bytes_at e.register 0 8
    else if command == 0xE7
    then serve rest e
    else if command == 0xE0
    then codes "NFS1" ++ (1 ∷ 0 ∷ 0 ∷ [])
    else if command == 0xE4
    then to_be 4 (length e.staged + length (drop 4 rest))
    else codes "NQL1" ++ (0x09 ∷ [])

unfoldable pub answer : Bytes → Bench → Result Bytes × Bench
unfolding act say
answer [] e = (err os_error, e)
answer (command ∷ rest) e = (ok (say command rest e), act command rest e)

unfoldable pub bench : Transport
unfolding answer
bench = record {
  Env = Bench;
  transact = answer;
  sleep = λ ms e. record e { clock = e.clock + ms };
  monotonic = λ e. e.clock;
  timeout = λ e. e.time_limit;
  set_timeout = λ ms e. (ok tt, record e { time_limit = ms });
  reconnect_count = λ e. 0;
  abandon_serial = λ e. e;
}

-- A link to a board whose memory is empty and whose Drive1 holds one file.
unfoldable pub link : Link bench
unfolding bench
link = record {
  env = record {
    memory = λ _. 0;
    register = λ _. 0;
    staged = [];
    file = 11 ∷ 22 ∷ 33 ∷ [];
    loaded = 9 ∷ [];
    configured = [];
    clock = 0;
    time_limit = 1000;
  };
  drive_firmware_build = none;
  keyboard_layout = "us";
  ql_layout = "en";
}

act-clock : (command : ℕ) (rest : Bytes) (e : Bench) → (act command rest e).clock ≡ e.clock
unfolding act poke peek put
act-clock command rest e = ground arith

answer-clock : (b : Bytes) (e : Bench) → (answer b e).1.clock ≡ e.clock
unfolding answer
answer-clock [] e = refl
answer-clock (command ∷ rest) e = act-clock command rest e

answer-quiet : (b : Bytes) (e : Bench) → (answer b e).0 ≢ err out_of_rounds
unfolding answer
answer-quiet [] e = λ h. cc h
answer-quiet (command ∷ rest) e = λ h. cc h

pub bench-TimeLaws : TimeLaws bench
unfolding bench
bench-TimeLaws = record {
  sleep_later = λ ms e. omega arith;
  transact_later = λ b e. omega (arith, answer-clock b e);
  transact_quiet = answer-quiet;
}

-- The four bytes of an offset are the offset.
pub be4-digits :
    (a : ℕ)
    → a < 2 ^ 32
    → be4 (a / 256 / 256 / 256 % 256) (a / 256 / 256 % 256) (a / 256 % 256) (a % 256) ≡ a
be4-digits a h = omega arith
