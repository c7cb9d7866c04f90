-- ===== src/Utility.antt =====
-- Small words of reference/jsforth.js: the lines of the terminal as memory, the time, the info screen's size, the
-- drives' sizes, and the message on control structures.
use post.Prelude.{
  ℤ, pos, negsuc, ◌==ℤ◌, ◌-ℤ◌, ℕ, zero, suc, ◌-◌, ◌/◌, leb, ltb, true, false, if◌then◌else◌, Option,
  none, some, List, [], ◌∷◌, ◌++◌, length, take,
}
use post.Vm.{Vm, push, pop, inc, dec}
use post.Text.{Text, unpackstring}
use post.Text.Literal.{units}
use post.Throw.{throwerror}
use post.Terminal.{Screen, lines, at, modify, cr}
use post.Dictionary.{Dictionary, put_at}
use post.Blocks.{Blocks, capacity, localcapacity}
use post.Console.{Console, packed, count_of}
use post.Console.Info.{Infos, info}
use post.Events.{Errors}

-- `( a n1 -- n2 )`; `none`: the terminal has no such line.
unfoldable pub forth_readline : Console → Option Console
forth_readline c =
    let v = c.vm in
    elim v.tos [
      | negsuc _ ↦ none
      | pos n ↦
          let line = at [] c.screen.terminal n in
          if ltb n (length c.screen.terminal)
          then some (record c {
            vm = record v {
              m = unpackstring line (v.s v.sp) v.m;
              sp = dec v.sp;
              w = pos (length line);
              tos = pos (length line);
            };
          })
          else none
    ]

-- The rounds of the loop of `writeline`.
new_lines : ℕ → Screen → Screen
unfolding cr
new_lines zero t = t
new_lines (suc n) t = new_lines n (cr t)

-- `( a n1 n2 -- )`; `none`: `cr` keeps the lines at 30, so that the loop does not end for line 30 and beyond.
unfoldable pub forth_writeline : Console → Option Console
unfolding new_lines
forth_writeline c =
    let v = c.vm in
    let sp1 = dec v.sp in
    elim (packed (v.s sp1) (v.s v.sp) v) [
      | none ↦ none
      | some text ↦ elim v.tos [
        | negsuc _ ↦ none
        | pos n ↦
            let t = new_lines (suc n - c.screen.linesonscreen) c.screen in
            if leb lines n
            then none
            else some (record {
              vm = record v { w = v.s v.sp; sp = v.sp -ℤ pos 3; tos = v.s (v.sp -ℤ pos 2) };
              screen = record t { terminal = modify (λ line. text) n t.terminal };
            })
      ]
    ]

-- `( a1 n1 a2 -- n2 )`, where `prompt` is what the user answers, if anything.
unfoldable pub forth_enter : (prompt : Text → Option Text) → Vm → Option Vm
forth_enter prompt v = elim (packed (v.s (dec v.sp)) (v.s v.sp) v) [
  | none ↦ none
  | some question ↦ elim (prompt question) [
    | none ↦ none
    | some answer ↦ some (record v {
      m = unpackstring answer v.tos v.m;
      tos = pos (length answer);
      sp = v.sp -ℤ pos 2;
    })
  ]
]

-- The machine is suspended, and `virtualmachine` asked for at `ip` after so many milliseconds.
unfoldable pub forth_ms : Vm → (ℤ × ℤ) × Vm
unfolding pop
forth_ms v = ((v.tos, v.ip), pop (record v { suspended = v.w }))

-- `now` is in milliseconds.
unfoldable pub forth_epoch : (now : ℕ) → Vm → Vm
unfolding push
forth_epoch now v = record (push (pos (now / 1000)) v) { w = pos now }

-- `none`: no header has a negative number.
unfoldable pub forth_locate : Dictionary → Option Dictionary
forth_locate d = elim d.vm.tos [
  | negsuc _ ↦ none
  | pos i ↦ some (record d { vm = record (d.vm) { tos = d.src i } })
]

pub infosall : Infos → Infos
infosall i = record i { allinfos = true }

pub infostail : Infos → Infos
infostail i = record i { allinfos = false }

-- A negative number of lines keeps none, as 0 does.
unfoldable pub setinfoslines : (number_text : ℤ → Text) → Vm → Infos → Vm × Infos
unfolding info pop
setinfoslines number_text v i =
    let message = units "* buffer size set to " ++ number_text v.tos ++ units " lines." in
    (pop v, info message (record i { infolines = count_of v.tos }))

unfoldable pub forth_capacity : Blocks → Blocks
unfolding capacity push
forth_capacity b = record b { vm = push (capacity b) b.vm }

unfoldable pub forth_localcapacity : Blocks → Blocks
unfolding localcapacity push
forth_localcapacity b = record b { vm = push (localcapacity b) b.vm }

-- A block of 16 lines is added to the drive in memory; missing lines are empty.
unfoldable pub saveblock : (screenline : List Text) → Blocks → Blocks
saveblock screenline b = record b {
  ramblock = λ k l. if k ==ℤ b.ramblocks then at [] (take 16 screenline) l else b.ramblock k l;
  ramblocks = inc b.ramblocks;
}

abbrev pub controlflow : List Text
controlflow =
    []
    ∷ units "if"
    ∷ []
    ∷ units "begin"
    ∷ units "while"
    ∷ units "do or ?do"
    ∷ units "for"
    ∷ units "case"
    ∷ units "of"
    ∷ []

abbrev pub controlflowwant : List Text
controlflowwant =
    []
    ∷ units "else or then"
    ∷ units "then"
    ∷ units "while,until or again"
    ∷ units "repeat"
    ∷ units "loop or +loop"
    ∷ units "next"
    ∷ units "endcase"
    ∷ units "endof"
    ∷ []

-- An element of such an array, as JavaScript writes it.
abbrev pub named : List Text → ℤ → Text
named names (pos n) = at (units "undefined") names n
named names (negsuc _) = units "undefined"

unfoldable pub forth_unstructured : Vm → Errors → Vm × Errors
unfolding throwerror
forth_unstructured v e =
    let text =
      units "unstructured, missing "
      ++ named controlflow v.tos
      ++ units ", expected "
      ++ named controlflowwant (v.s v.sp) in
    (throwerror (negsuc 65) v, record e { systemerror = put_at e.systemerror 66 text })
