-- ===== src/Jack/Xruns.antt =====
-- When the client of src/JackClient.cpp gives up because of xruns.
use native.Mathlib.Nat.{div-eq_of_lt}
use speakerman.Prelude.{
  ℕ, ◌+◌, ◌-◌, ◌*◌, ◌/◌, ◌≤◌, ◌<◌, ◌≡◌, refl, ap, ◌∙◌, some, List, [], ◌∷◌, ◌++◌, length,
  if◌then◌else◌, ltb, leb, ◌==◌, max, arith,
}
use speakerman.Jack.{active, shutting_down, Client, on_xrun, on_shutdown}

-- Xruns, when the processor has run these numbers of cycles.
unfoldable pub on_xruns : List ℕ → Client → Client
unfolding on_xrun
on_xruns [] c = c
on_xruns (cycles ∷ rest) c = on_xruns rest (on_xrun cycles c).1

rate_test : (since : ℕ) → 200 ≤ since → (200 * 50 / since == 0) ≡ ltb 10000 since
rate_test since h = grind (arith, div-eq_of_lt)

-- The 200th of a row of xruns.
last_xrun :
    (c : Client) (p first last : ℕ)
    → c.processor ≡ some p
    → c.state ≡ active
    → c.x_runs ≡ 199
    → c.last_xrun_cycle ≡ first
    → (on_xrun last c).1.state ≡ (if leb (last - first) 10000 then shutting_down else active)
unfolding on_xrun on_shutdown
last_xrun c p first last has is count from =
    let rate = rate_test (max 200 (last - first)) in ground (arith, rate)

next_xrun :
    (c : Client) (p cycles : ℕ)
    → c.processor ≡ some p
    → 1 ≤ c.x_runs
    → c.x_runs < 199
    → (on_xrun cycles c).1 ≡ record c { x_runs = c.x_runs + 1 }
unfolding on_xrun
next_xrun c p cycles has some_xrun few = ground arith

first_xrun :
    (c : Client) (p cycles : ℕ)
    → c.processor ≡ some p
    → c.x_runs ≡ 0
    → (on_xrun cycles c).1 ≡ record c { last_xrun_cycle = cycles; x_runs = 1 }
unfolding on_xrun
first_xrun c p cycles has none_yet = ground arith

on_xruns-count :
    (cs rest : List ℕ) (c : Client) (p : ℕ)
    → c.processor ≡ some p
    → 1 ≤ c.x_runs
    → c.x_runs + length cs ≤ 199
    → on_xruns (cs ++ rest) c ≡ on_xruns rest (record c { x_runs = c.x_runs + length cs })
unfolding on_xruns
on_xruns-count [] rest c p has some_xrun few =
    let same : c.x_runs ≡ c.x_runs + 0 = omega arith in
    ap (λ n. on_xruns rest (record c { x_runs = n })) same
on_xruns-count (cycles ∷ cs) rest c p has some_xrun few =
    let one = next_xrun c p cycles has some_xrun (omega arith) in
    let count : c.x_runs + 1 + length cs ≡ c.x_runs + length (cycles ∷ cs) = omega arith in
    ap (on_xruns (cs ++ rest)) one
    ∙ (on_xruns-count cs rest (record c { x_runs = c.x_runs + 1 }) p has (omega arith) (omega arith)
        ∙ ap (λ n. on_xruns rest (record c { x_runs = n })) count)

-- An active client with a processor, and no xruns yet, is shut down by 200 xruns if at most 10000 cycles
-- lie between the first and the last of them, and else goes on.
pub on_xruns_lem :
    (c : Client) (p first last : ℕ) (cs : List ℕ)
    → c.processor ≡ some p
    → c.state ≡ active
    → c.x_runs ≡ 0
    → length cs ≡ 198
    → (on_xruns (first ∷ (cs ++ last ∷ [])) c).state
      ≡ (if leb (last - first) 10000 then shutting_down else active)
unfolding on_xruns
on_xruns_lem c p first last cs has is none_yet count =
    let c1 = record c { last_xrun_cycle = first; x_runs = 1 } in
    let many = on_xruns-count cs (last ∷ []) c1 p has (omega arith) (omega arith) in
    ap (λ d. (on_xruns (cs ++ last ∷ []) d).state) (first_xrun c p first has none_yet)
    ∙ ap (λ d. d.state) many
    ∙ last_xrun (record c1 { x_runs = 1 + length cs }) p first last has is (omega arith) refl
