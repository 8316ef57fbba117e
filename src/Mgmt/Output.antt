-- ===== src/Mgmt/Output.antt =====
-- What the output calls leave in the buffer.
use protos_tpe.Prelude.{
  ℕ, suc, ◌+◌, ◌-◌, ◌≤◌, ◌<◌, ◌≡◌, refl, ap, ◌∙◌, sym, false, some, List, [], ◌∷◌, ◌++◌, append-nil,
  arith, ◌==◌, length, take, take-nil, take_all, length-take, length-append, All, min,
}
use protos_tpe.Buffer.{Buffer, IsValid, contents, write_ptr, fill}
use protos_tpe.Buffer.Writes.{Pushed, Pushed-trans, fill_room}
use protos_tpe.Mgmt.{out_printf, out_lines, printf_size}

-- `out_printf` writes as much of the text as fits into its line and into the buffer.
abbrev pub fitting : Buffer → List ℕ → ℕ
fitting b text = min (b.limit - b.write) (min (length text) (printf_size - 1))

suc_positive : (n : ℕ) → (suc n == 0) ≡ false
suc_positive n = ground arith

nothing-Pushed : {b : Buffer} → IsValid b → Pushed b b []
nothing-Pushed {b} v = record {
  valid = v;
  grown = sym (append-nil (contents b));
  advanced = omega arith;
  same_read = refl;
  same_limit = refl;
}

write_ptr-valid : {b : Buffer} → IsValid b → write_ptr b ≡ some (b.write, b.limit - b.write)
unfolding write_ptr
write_ptr-valid {b} v = ground arith

out_printf-fill :
    {b : Buffer} (c : ℕ) (cs : List ℕ)
    → IsValid b
    → out_printf b (c ∷ cs) ≡ fill b (take (fitting b (c ∷ cs)) (c ∷ cs))
unfolding out_printf
out_printf-fill {b} c cs v =
    rw (suc_positive (length cs), write_ptr-valid v)
      (ap (λ k. fill b (take k (c ∷ cs))) (ground arith))

pub out_printf_lem :
    (text : List ℕ) {b : Buffer}
    → IsValid b
    → (b' : Buffer) × (out_printf b text ≡ some b') × Pushed b b' (take (fitting b text) text)
out_printf_lem [] {b} v =
    (b, unfold out_printf in refl, rw (take-nil (fitting b [])) (nothing-Pushed v))
out_printf_lem (c ∷ cs) {b} v =
    let text = take (fitting b (c ∷ cs)) (c ∷ cs) in
    let (b', runs, p) =
      fill_room text v (omega (arith, length-take (fitting b (c ∷ cs)) (c ∷ cs), v.write_le)) in
    (b', out_printf-fill c cs v ∙ runs, p)

-- All texts in their order.
abbrev pub concat : List (List ℕ) → List ℕ
concat [] = []
concat (t ∷ ts) = t ++ concat ts

-- A text that `out_printf` does not cut.
abbrev pub IsShort : List ℕ → Type 0
IsShort t = length t < printf_size

-- Texts that are short and fit into the buffer are all written, in their order.
pub out_lines_room :
    (ts : List (List ℕ)) {b : Buffer}
    → IsValid b
    → All IsShort ts
    → b.write + length (concat ts) ≤ b.limit
    → (b' : Buffer) × (out_lines b ts ≡ some b') × Pushed b b' (concat ts)
unfolding out_lines
out_lines_room [] {b} v a h = (b, refl, nothing-Pushed v)
out_lines_room (t ∷ ts) {b} v a h =
    let (m, first, p) = out_printf_lem t v in
    let fits : b.write + length t ≤ b.limit = omega (arith, length-append t (concat ts)) in
    let whole : take (fitting b t) t ≡ t = take_all (fitting b t) t (omega arith) in
    let p' = rw whole at p in
    let (b', rest, q) =
      out_lines_room ts p'.valid a.1
        (omega (arith, p'.advanced, p'.same_limit, length-append t (concat ts))) in
    (b', rw first rest, Pushed-trans p' q)

-- Without any such condition the output ends, in a valid buffer.
pub out_lines-IsValid :
    (ts : List (List ℕ)) {b : Buffer}
    → IsValid b
    → (b' : Buffer) × (out_lines b ts ≡ some b') × IsValid b'
unfolding out_lines
out_lines-IsValid [] {b} v = (b, refl, v)
out_lines-IsValid (t ∷ ts) {b} v =
    let (m, first, p) = out_printf_lem t v in
    let (b', rest, w) = out_lines-IsValid ts p.valid in (b', rw first rest, w)
