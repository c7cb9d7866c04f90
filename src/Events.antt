-- ===== src/Events.antt =====
-- What starts the machine of reference/jsforth.js from outside: the handlers that the browser calls, the error
-- messages, and the state that a warm start begins with.
mod Keys
mod Tests
use post.Prelude.{
  ℤ, pos, negsuc, ◌==ℤ◌, ◌-ℤ◌, ltb_ℤ, update, ℕ, zero, suc, Bool, true, false, if◌then◌else◌,
  Option, none, some, List, [], ◌∷◌, ◌++◌, take, length,
}
use post.Number.{magnitude}
use post.Vm.{Vm, push, inc, dec}
use post.Text.{Text, pack, unpackstring, setcookie, readcookie}
use post.Text.Literal.{units}
use post.Throw.{throwerror}
use post.Input.{Input}
use post.Dictionary.{put_at, same_text, blk, state}
use post.Blocks.{Blocks, Browser}
use post.Digit.{base}
use post.Flow.Compile.{innerloop}
use post.Console.{packed}
use post.Console.Info.{Infos, info}

-- `virtualmachine` with the keys that wait: `w = m[ip++] ; t[w]()`, for at most so many words. A word has no
-- result where the model leaves it open.
unfoldable pub run_keys : (t : ℤ → Input → Option Input) → ℕ → Input → Option Input
run_keys t zero i = none
run_keys t (suc fuel) i =
    let v = i.vm in
    elim (t (v.m v.ip) (record i { vm = record v { w = v.m v.ip; ip = inc v.ip } })) [
      | none ↦ none
      | some j ↦ let rest = run_keys t fuel j in if j.vm.suspended ==ℤ pos 0 then rest else some j
    ]

unfoldable pub virtualmachine_keys :
    (t : ℤ → Input → Option Input) → ℕ → (entrypoint : ℤ) → Input → Option Input
unfolding run_keys
virtualmachine_keys t fuel entrypoint i =
    run_keys t fuel (record i { vm = record (i.vm) { suspended = pos 0; ip = entrypoint } })

-- `KeyEvent` with the code of a key: it starts the machine again where that waits for a key.
unfoldable pub key_event :
    (t : ℤ → Input → Option Input) (fuel : ℕ) (x_key1 keycode : ℤ) → Input → Option Input
unfolding virtualmachine_keys
key_event t fuel x_key1 keycode i =
    let pressed = record i { inbuf = i.inbuf ++ keycode ∷ [] } in
    let entered = virtualmachine_keys t fuel i.vm.ip pressed in
    if i.vm.suspended ==ℤ x_key1 then entered else some pressed

-- The texts of the errors; a number without one has the empty text, which counts as none.
pub record Errors : Type 0 where
  pub systemerror : ℕ → Text
  pub customerror : ℕ → Text

-- `number_text` writes a number in decimal.
unfoldable pub errordialog : (number_text : ℤ → Text) → ℤ → Errors → Text
errordialog number_text x e =
    let numbered = units "error #" ++ number_text x in
    let system = units "error(" ++ number_text x ++ units "): " ++ e.systemerror (magnitude x) in
    let custom = units "error: " ++ e.customerror (magnitude x) in
    if ltb_ℤ x (pos 0)
    then (if same_text (e.systemerror (magnitude x)) [] then numbered else system)
    else if same_text (e.customerror (magnitude x)) []
    then numbered
    else custom

-- `( a n1 n2 -- )`
unfoldable pub forth_newerror : Vm → Errors → Option (Vm × Errors)
forth_newerror v e =
    let left = record v { sp = v.sp -ℤ pos 3; tos = v.s (v.sp -ℤ pos 2) } in
    elim (packed (v.s (dec v.sp)) (v.s v.sp) v) [
      | none ↦ none
      | some text ↦ elim v.tos [
        | pos n ↦ some (left, record e { customerror = put_at e.customerror n text })
        | negsuc n ↦ some (left, record e { systemerror = put_at e.systemerror (suc n) text })
      ]
    ]

-- The variable `warnings` of the script: the address of its cell.
abbrev pub warnings : ℤ
warnings = pos 3

-- `ErrorEvent`: what becomes of the machine, the info screen and the messages, and what it returns.
unfoldable pub error_event :
    (virtualmachine : ℤ → Vm → Vm) (error : ℤ) (msg line : Text)
    → Vm × Infos × Errors
    → Bool × Vm × Infos × Errors
unfolding info
error_event virtualmachine error msg line (v, i, e) =
    let text = msg ++ units " (line " ++ line ++ units ")" in
    let v1 = virtualmachine error (record v { tos = negsuc 67 }) in
    if same_text (take 8 msg) (units "uncaught")
    then (true, v, info (units "uncaught javascript exception ignored") i, e)
    else (v1.m warnings ==ℤ pos 0, v1, i, record e { systemerror = put_at e.systemerror 68 text })

-- The clock, in milliseconds: `now` is what the browser's clock shows.
pub forth_startclock : (now : ℤ) → ℤ → ℤ
forth_startclock now clock = now

pub forth_elapsed : (now clock : ℤ) → Vm → Vm
unfolding push
forth_elapsed now clock v = record (push (now -ℤ clock) v) { w = now }

pub forth_decimal : Vm → Vm
forth_decimal v = record v { m = update v.m base (pos 10) }

pub forth_hex : Vm → Vm
forth_hex v = record v { m = update v.m base (pos 16) }

abbrev pub outfile : ℤ
outfile = pos 6

abbrev pub innercase : ℤ
innercase = pos 15

-- The machine with its float stack and the keys that wait.
pub record Session (F : Type 0) : Type 0 where
  pub vm : Vm
  pub ftos : F
  pub f : List F
  pub inbuf : List ℤ

-- `warminit`, where `zero_float` is the float 0.
unfoldable pub forth_warminit : {F : Type 0} → (zero_float : F) → Session F → Session F
forth_warminit zero_float c =
    let v = c.vm in
    let m1 = update (update (update v.m state (pos 0)) innerloop (pos 0)) innercase (pos 0) in
    record {
      vm = record v {
        r = update (update v.r (pos 1) (pos 0)) (pos 0) (v.r v.rp);
        rp = pos 0;
        s = update (update v.s (pos 1) (pos 0)) (pos 0) (pos 0);
        sp = pos 0;
        tos = pos 0;
        catchframe = pos 0;
        m = update (update m1 blk (negsuc 0)) outfile (negsuc 0);
      };
      ftos = zero_float;
      f = [];
      inbuf = [];
    }

-- `cookie!` and `cookie@`; a negative count never ends.
module _ (browser : Browser) where
  unfoldable pub forth_setcookie : Blocks → Option Blocks
  forth_setcookie b =
      let v = b.vm in
      elim (packed (v.s (v.sp -ℤ pos 2)) (v.s (dec v.sp)) v) [
        | none ↦ none
        | some name ↦ elim (packed (v.s v.sp) v.tos v) [
          | none ↦ none
          | some value ↦ some (record b {
            document = browser.assign_cookie b.document (
                setcookie browser.domain_label browser.expires_label browser.path_label
                  browser.secure_label name value none none none none);
            vm = record v { sp = v.sp -ℤ pos 4; tos = v.s (v.sp -ℤ pos 3) };
          })
        ]
      ]

  -- ( a1 n1 a2 -- n2 ) An empty text counts as none.
  unfoldable pub forth_readcookie : Blocks → Option Blocks
  unfolding throwerror
  forth_readcookie b =
      let v = b.vm in
      let missing = record b { vm = throwerror (negsuc 69) v } in
      elim (packed (v.s (dec v.sp)) (v.s v.sp) v) [
        | none ↦ none
        | some name ↦ elim (readcookie b.document name) [
          | none ↦ some missing
          | some [] ↦ some missing
          | some (c ∷ cs) ↦ some (record b {
            vm = record v {
              sp = v.sp -ℤ pos 2;
              m = unpackstring (c ∷ cs) v.tos v.m;
              tos = pos (length (c ∷ cs));
              w = pos (length (c ∷ cs));
            };
          })
        ]
      ]
