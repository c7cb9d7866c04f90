-- ===== src/Dictionary/Define.antt =====
-- The words of reference/jsforth.js that make headers, name them, and look names up in the stack's texts.
use post.Prelude.{
  ℤ, pos, negsuc, ◌==ℤ◌, ◌-ℤ◌, update, ℕ, zero, suc, ◌*◌, not, leb, if◌then◌else◌, Option, none,
  some, List, [], ◌∷◌, ◌++◌, length,
}
use post.Number.{js_and, js_or}
use post.Vm.{Vm, push, inc, dec}
use post.Text.{Text, pack, unpackstring}
use post.Text.Literal.{units}
use post.Throw.{throwerror}
use post.Input.{Input, forth_parse, bl}
use post.Pictured.{comma_checked, dictionaryfull, forth_comma}
use post.Dictionary.{
  Dictionary, compliance, foerthchen, forth_search, newheader, put_at, state, current, lastxt,
  precedencebit,
}
use post.Dictionary.Header.{forth_reveal}

-- ( a -- a 0 | x1 1 | xt -1 )
unfoldable pub forth_find : (to_lower_case : Text → Text) → Dictionary → Option Dictionary
unfolding push forth_search
forth_find to_lower_case d =
    let v = d.vm in
    let a = v.tos in
    let asked = record (push (inc a) (push a v)) { tos = js_and (v.m a) (pos 255) } in
    elim (forth_search to_lower_case (record d { vm = asked })) [
      | none ↦ none
      | some e ↦
          let u = e.vm in
          elim u.tos [
            | pos zero ↦ some e
            | pos (suc i) ↦
                let immediate = not (js_and (e.hf (suc i)) precedencebit ==ℤ pos 0) in
                some (record e {
                  vm = record u {
                    s = update u.s u.sp (pos (suc i));
                    tos = if immediate then pos 1 else negsuc 0;
                  };
                })
            | negsuc _ ↦ none
          ]
    ]

-- `( a n -- )`; `newheader(tos)` gives no flags, so that the header is hidden.
unfoldable pub forth_newheader : Dictionary → Option Dictionary
unfolding newheader
forth_newheader d =
    let v = d.vm in
    elim v.tos [
      | negsuc _ ↦ none
      | pos n ↦
          let packed = record v { sp = dec v.sp } in
          let made = newheader (pack v.m (v.s v.sp) n) (pos 0) (record d { vm = packed }) in
          let u = made.vm in some (record made { vm = record u { tos = u.s u.sp; sp = dec u.sp } })
    ]

-- `( xt -- a n )`: the name above the dictionary. The cell above the stack that takes it on its way is left
-- out.
unfoldable pub forth_name : Dictionary → Option Dictionary
forth_name d =
    let v = d.vm in
    elim v.tos [
      | negsuc _ ↦ none
      | pos i ↦
          let name = d.h i in
          some (record d {
            vm = record v {
              s = update v.s (inc v.sp) v.dp;
              sp = inc v.sp;
              m = unpackstring name v.dp v.m;
              w = pos (length name);
              tos = pos (length name);
            };
          })
    ]

-- The next word of the source becomes a header.
unfoldable pub forth_createheader : Input → Dictionary → Option (Input × Dictionary)
unfolding push forth_parse forth_newheader
forth_createheader i d =
    let parsed = forth_parse (record i { vm = push bl d.vm }) in
    elim (forth_newheader (record d { vm = parsed.vm })) [
      | none ↦ none
      | some e ↦ some (record parsed { vm = e.vm }, e)
    ]

-- `use`, before it sets the type of the word.
unfoldable pub forth_use : Input → Dictionary → Option (Input × Dictionary)
unfolding forth_createheader forth_comma
forth_use i d = elim (forth_createheader i d) [
  | none ↦ none
  | some (j, e) ↦ let v = forth_comma e.vm in some (record j { vm = v }, record e { vm = v })
]

-- `:noname`, before it sets the type of the word.
unfoldable pub forth_colonnoname : (x_nest : ℤ) → Dictionary → Dictionary
unfolding newheader comma_checked
forth_colonnoname x_nest d =
    let v = d.vm in
    let made =
      newheader [] (pos 0)
        (record d { vm = record v { s = update v.s (inc v.sp) v.tos; sp = inc v.sp } }) in
    let u = comma_checked x_nest (record (made.vm) { tos = pos made.wc }) in
    record made { vm = record u { m = update u.m state (negsuc 0) } }

unfoldable pub forth_unused : Vm → Vm
unfolding push
forth_unused v = push (dictionaryfull -ℤ v.dp) v

unfoldable pub forth_heap : (heapend : ℤ) → Vm → Vm
unfolding push
forth_heap heapend v = push heapend v

-- The descriptions of the stack effects.
abbrev pub stackeffect_text : Text → Text
stackeffect_text [] = []
stackeffect_text (c ∷ cs) = units "( " ++ (c ∷ cs) ++ units " )"

-- `( xt -- a n )`; a word without a description has a count of 0.
unfoldable pub forth_stackeffect : Dictionary → Option Dictionary
forth_stackeffect d =
    let v = d.vm in
    elim v.tos [
      | negsuc _ ↦ none
      | pos i ↦
          let text = stackeffect_text (d.dse i) in
          some (record d {
            vm = record v {
              s = update v.s (inc v.sp) v.dp;
              sp = inc v.sp;
              m = unpackstring text v.dp v.m;
              tos = pos (length text);
            };
          })
    ]

-- `( a n -- )`
unfoldable pub forth_storestackeffect : Dictionary → Option Dictionary
forth_storestackeffect d =
    let v = d.vm in
    elim v.tos [
      | negsuc _ ↦ none
      | pos n ↦
          let text = pack v.m (v.s v.sp) n in
          let sp1 = dec v.sp in
          elim (v.m lastxt) [
            | negsuc _ ↦ none
            | pos i ↦ some (record d {
              dse = put_at d.dse i text;
              vm = record v { tos = v.s sp1; sp = dec sp1 };
            })
          ]
    ]

-- `describe`: the effect of the last word, and the standards and vocabularies it belongs to.
unfoldable pub describe : (string1 : Text) (bitmask : ℤ) → Dictionary → Dictionary
describe string1 bitmask d =
    let here = d.vm.m current in
    let mask = if bitmask ==ℤ pos 0 then js_or (pos 0) here else js_or bitmask here in
    record d { dse = put_at d.dse d.wc string1; ds = put_at d.ds d.wc mask }

-- The standards.
abbrev pub compliance_of : ℤ → Vm → Vm
compliance_of standard v = record v { m = update v.m compliance standard }

pub forth_fig : Vm → Vm
forth_fig v = compliance_of (pos 2) v

pub forth_foerthchen : Vm → Vm
forth_foerthchen v = compliance_of foerthchen v

pub forth_f79 : Vm → Vm
forth_f79 v = compliance_of (pos 4) v

pub forth_f83 : Vm → Vm
forth_f83 v = compliance_of (pos 8) v

pub forth_ans : Vm → Vm
forth_ans v = compliance_of (pos 16) v

pub forth_jsforth : Vm → Vm
forth_jsforth v = compliance_of (pos 64) v

-- The names of the vocabularies, by their headers, and the bit of the last one.
pub record Vocabularies : Type 0 where
  pub vocname : List ℕ
  pub nextvocabulary : ℕ

-- `vocabulary`, before it sets the type of the word: each has the next bit, and there is room for as many as
-- fit below `0x20000000`.
unfoldable pub forth_vocabulary :
    Input → Dictionary → Vocabularies → Option (Input × Dictionary × Vocabularies)
unfolding forth_createheader forth_reveal throwerror
forth_vocabulary i d vocs =
    let next = vocs.nextvocabulary * 2 in
    if leb 0x2000_0000 vocs.nextvocabulary
    then some (i, record d { vm = throwerror (negsuc 68) d.vm }, vocs)
    else elim (forth_createheader i d) [
      | none ↦ none
      | some (j, e) ↦
          let v = e.vm in
          let u = record v { m = update v.m v.dp (pos next); dp = inc v.dp } in
          some (
            record j { vm = u },
            forth_reveal (record e { vm = u }),
            record { vocname = e.wc ∷ vocs.vocname; nextvocabulary = next },
          )
    ]
