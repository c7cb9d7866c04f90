-- ===== src/Dictionary/Tests.antt =====
-- Runs of the search, with a stand-in for `toLowerCase` that knows the letter `A`.
use post.Prelude.{
  arith, ℤ, pos, negsuc, Store, update, ℕ, [], ◌∷◌, map, ◌==◌, if◌then◌else◌, ◌≡◌, refl,
}
use post.Fixture.{blank, addresses}
use post.Text.{Text}
use post.Dictionary.{
  Dictionary, current, forth, only, any, context, compliance, casesensitive, smudgebit,
  forth_search1, search_all,
}
use post.Number.{js_and, js_or}
use post.Vm.{Vm, push}
use post.Inner.{Bodies}
use post.Dictionary.Linkage.{Linked, primitive_type, code_of, constant, variable, constant-pushes}
use post.Dictionary.Found.{hidden_header, revealed, newheader-reveal}
use post.Dictionary.Search.{Matches, Latest, forth_search1-Latest}
use post.Dictionary.Order.{first_found, search_all-first_found}

abbrev lower : Text → Text
lower cs = map (λ c. if c == b'A' then b'a' else c) cs

-- Three headers: `a` of `forth` twice, and `ab` of `only`.
abbrev names : ℕ → Text
names n = if n == 1 then b'a' ∷ [] else if n == 2 then b'A' ∷ [] else b'a' ∷ b'b' ∷ []

abbrev vocabularies : ℕ → ℤ
vocabularies n = if n == 3 then pos 222 else pos 350

abbrev memory : Store
memory = update (update (update addresses casesensitive (pos 0)) compliance any) context forth

abbrev headers : Dictionary
headers = record {
  vm = blank memory;
  wc = 3;
  h = names;
  src = λ n. negsuc 0;
  hf = λ n. smudgebit;
  x = λ n. pos n;
  ds = vocabularies;
  dse = λ n. [];
  vocstack = only ∷ forth ∷ [];
  primitives = 0;
}

forth_search1-Latest_example :
    Latest (Matches lower headers (b'a' ∷ [])) 3 (forth_search1 lower (b'a' ∷ []) headers)
forth_search1-Latest_example = forth_search1-Latest lower (b'a' ∷ []) headers

search_all-first_found_example :
    search_all lower (b'a' ∷ b'b' ∷ []) headers
    ≡ first_found lower (b'a' ∷ b'b' ∷ []) headers (forth ∷ only ∷ forth ∷ [])
search_all-first_found_example = search_all-first_found lower (b'a' ∷ b'b' ∷ []) headers

-- The vocabulary that is compiled to is `forth`.
abbrev compiling : Dictionary
compiling = record headers { vm = record (headers.vm) { m = update headers.vm.m current forth } }

-- Names that are lower case already.
abbrev same : Text → Text
same cs = cs

newheader-reveal_example :
    ((k : Text)
      → forth_search1 same k (hidden_header (b'a' ∷ []) compiling) ≡ forth_search1 same k compiling)
    × (forth_search1 same (b'a' ∷ []) (revealed (b'a' ∷ []) compiling) ≡ 4)
unfolding js_and js_or
newheader-reveal_example =
    newheader-reveal same (b'a' ∷ []) compiling (b'a' ∷ []) refl refl refl refl

-- A constant is made at 1000, where the cell after its token then holds 7.
abbrev linked : Linked
linked = record { dictionary = headers; t = λ n. primitive_type; function = λ n v. v }

abbrev seven : Linked
seven = constant (pos 30) (b'c' ∷ []) (pos 7) linked

abbrev cell : Linked
cell = variable (pos 31) (b'c' ∷ []) linked

abbrev bodies : Bodies
bodies = record { function = λ i v. v; address = λ i. pos 1000 }

-- The machine that runs word 4.
abbrev running : Vm
running = record (seven.dictionary.vm) { w = pos 4 }

abbrev no_code : ℤ → Vm → Vm
no_code i v = v

constant-pushes_example :
    (code_of bodies no_code (seven.t 4) running ≡ push (pos 7) running)
    × (code_of bodies no_code (cell.t 4) running ≡ push (pos 1001) running)
    × (cell.dictionary.vm.m (pos 1001) ≡ pos 0)
unfolding constant variable
constant-pushes_example =
    constant-pushes (pos 30) (pos 31) (pos 7) (b'c' ∷ []) linked no_code bodies bodies running
      running (omega arith) refl refl refl refl refl
