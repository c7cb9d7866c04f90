-- ===== src/Console/Info.antt =====
-- The info screen: its lines, and what of them it shows.
use post.Prelude.{
  ℤ, pos, ◌==ℤ◌, ℕ, ◌-◌, leb, if◌then◌else◌, Bool, not, Option, none, some, List, [], ◌∷◌, ◌++◌,
  length, take, drop,
}
use post.Vm.{Vm, dec}
use post.Text.{Text}
use post.Text.Literal.{units}
use post.Terminal.{lines, modify}
use post.Console.{packed}

abbrev pub linelen2 : ℕ
linelen2 = 55

abbrev pub lines2 : ℕ
lines2 = lines

-- The variable `debugging` of the script: the address of its cell.
abbrev pub debugging : ℤ
debugging = pos 1

-- The lines, the oldest first, how many are kept, whether all are shown, and what is shown.
pub record Infos : Type 0 where
  pub infoline : List Text
  pub infolines : ℕ
  pub allinfos : Bool
  pub status : Text

unfoldable pub info : Text → Infos → Infos
info string i = record i { infoline = i.infoline ++ take linelen2 string ∷ [] }

unfoldable pub clsinfo : Infos → Infos
clsinfo i = record i { infoline = drop (length i.infoline) i.infoline }

pub debug : Text → Vm → Infos → Infos
unfolding info
debug string v i = if v.m debugging ==ℤ pos 0 then i else info string i

unfoldable pub moreinfo : Text → Infos → Infos
moreinfo string i =
    let temp = length i.infoline - 1 in
    record i { infoline = modify (λ line. take linelen2 (line ++ string)) temp i.infoline }

pub seperator : Infos → Infos
unfolding info
seperator i = info (units "----------------------------------------------------------------") i

-- `infoline.join("\n")`
abbrev pub join_lines : List Text → Text
join_lines [] = []
join_lines (l ∷ []) = l
join_lines (l ∷ k ∷ ls) = l ++ 10 ∷ join_lines (k ∷ ls)

abbrev pub ended_lines : List Text → Text
ended_lines [] = []
ended_lines (l ∷ ls) = l ++ 10 ∷ ended_lines ls

unfoldable pub printinfos : Infos → Infos
printinfos i =
    let n = length i.infoline in
    let kept = if leb n i.infolines then i.infoline else drop (n - i.infolines) i.infoline in
    let shown =
      if i.allinfos then join_lines kept else ended_lines (drop (length kept - lines2) kept) in
    record i { infoline = kept; status = shown }

-- A click toggles between all lines and the last ones.
unfoldable pub select_event : Infos → Infos
unfolding printinfos
select_event i = printinfos (record i { allinfos = not i.allinfos })

-- `tos = m[sp--]`, as the script has it.
abbrev pub drop_text : Vm → Vm
drop_text v = record v { tos = v.m (dec v.sp); sp = dec (dec v.sp) }

unfoldable pub forth_info : Vm → Infos → Option (Vm × Infos)
unfolding info
forth_info v i = elim (packed (v.s v.sp) v.tos v) [
  | none ↦ none
  | some string ↦ some (drop_text v, info string i)
]

unfoldable pub forth_moreinfo : Vm → Infos → Option (Vm × Infos)
unfolding moreinfo
forth_moreinfo v i = elim (packed (v.s v.sp) v.tos v) [
  | none ↦ none
  | some string ↦ some (drop_text v, moreinfo string i)
]
