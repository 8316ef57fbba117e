-- ===== src/Request/Reply.antt =====
-- The replies of request.c as the bytes that they put into the buffer.
use protos_tpe.Prelude.{
  ℕ, ◌+◌, ◌/◌, ◌%◌, ◌≤◌, ◌≡◌, ap, ◌∙◌, true, some, List, [], ◌∷◌, ◌++◌, arith, Option, none, length,
  length-append, take, take_all, replicate, ◌>>=◌, sym, subst, fun_ext, Option-cases, inl, inr,
  ◌==◌, if◌then◌else◌, Bool-cases,
}
use protos_tpe.Buffer.{Buffer, IsValid, write_byte, write_bytes}
use protos_tpe.Buffer.Writes.{Pushed, write_bytes_room, write_bytes-append}
use protos_tpe.Request.{
  SockAddr, inet, inet6, other_family, address_bytes, family_atyp, write_reply, fill_reply,
  fill_reply_addr, socks5_version, atyp_ipv4, atyp_ipv6,
}

-- `VER REP RSV ATYP BND.ADDR BND.PORT`
abbrev pub reply : ℕ → ℕ → List ℕ → ℕ → List ℕ
reply rep atyp addr port =
    socks5_version ∷ rep ∷ 0 ∷ atyp ∷ (addr ++ (port / 256 % 256 ∷ port % 256 ∷ []))

write_two :
    (hi lo : ℕ) (b : Buffer)
    → (write_byte b hi >>= λ b'. write_byte b' lo) ≡ write_bytes b (hi ∷ lo ∷ [])
unfolding write_bytes
write_two hi lo b = elim (Option-cases (write_byte b hi)) [
  | inl e ↦ rw (e, ◌>>=◌)
  | inr (b', e) ↦
      rw e (elim (Option-cases (write_byte b' lo)) [ inl f ↦ rw (f, ◌>>=◌) | inr (b'', f) ↦ rw f ])
]

write_tail :
    (addr : List ℕ) (hi lo : ℕ) (b : Buffer)
    → (write_bytes b addr >>= λ b'. write_byte b' hi >>= λ b''. write_byte b'' lo)
      ≡ write_bytes b (addr ++ (hi ∷ lo ∷ []))
write_tail addr hi lo b =
    ap (λ k. write_bytes b addr >>= k) (fun_ext (write_two hi lo))
    ∙ sym (write_bytes-append addr (hi ∷ lo ∷ []) b)

write_reply-eq :
    (b : Buffer) (rep atyp : ℕ) (addr : Option (List ℕ)) (addr_len port : ℕ)
    → write_reply b rep atyp addr addr_len port
      ≡ write_bytes b (reply rep atyp (address_bytes addr addr_len) port)
unfolding write_reply write_bytes
write_reply-eq b rep atyp addr addr_len port =
    ap
      (λ k. write_byte b socks5_version >>= λ b₁.
        write_byte b₁ rep >>= λ b₂. write_byte b₂ 0 >>= λ b₃. write_byte b₃ atyp >>= k)
      (fun_ext (write_tail (address_bytes addr addr_len) (port / 256 % 256) (port % 256)))

write_reply_lem :
    (rep atyp : ℕ) (addr : Option (List ℕ)) (addr_len port : ℕ) {b : Buffer}
    → IsValid b
    → b.write + 6 + length (address_bytes addr addr_len) ≤ b.limit
    → (b' : Buffer) × (write_reply b rep atyp addr addr_len port ≡ some b')
      × Pushed b b' (reply rep atyp (address_bytes addr addr_len) port)
write_reply_lem rep atyp addr addr_len port {b} v h =
    let a = address_bytes addr addr_len in
    let room : b.write + length (reply rep atyp a port) ≤ b.limit =
      omega (arith, length-append a (port / 256 % 256 ∷ port % 256 ∷ [])) in
    let (b', runs, p) = write_bytes_room (reply rep atyp a port) v room in
    (b', write_reply-eq b rep atyp addr addr_len port ∙ runs, p)

-- The null reply: an address of zeros, of the size that the address type has.
abbrev pub null_reply : ℕ → ℕ → List ℕ
null_reply rep atyp =
    if atyp == atyp_ipv6
    then reply rep atyp_ipv6 (replicate 16 0) 0
    else reply rep atyp_ipv4 (replicate 4 0) 0

-- With room for 22 bytes in a valid buffer, `fill_request_reply` appends one whole reply with a
-- zero address and port: 22 bytes for IPv6 and 10 for any other type, which it calls IPv4.
pub fill_reply-null :
    (rep atyp : ℕ) {b : Buffer}
    → IsValid b
    → b.write + 22 ≤ b.limit
    → (b' : Buffer) × (fill_reply b rep atyp ≡ some b') × Pushed b b' (null_reply rep atyp)
unfolding fill_reply
fill_reply-null rep atyp {b} v h = elim (Bool-cases (atyp == atyp_ipv6)) [
  | inl six ↦
      let is_six : atyp ≡ atyp_ipv6 = ground arith in
      rw (six, is_six) (write_reply_lem rep atyp_ipv6 none 16 0 v (omega arith))
  | inr four ↦ rw four (write_reply_lem rep atyp_ipv4 none 4 0 v (omega arith))
]

abbrev pub address : SockAddr → List ℕ
address (inet addr _) = addr
address (inet6 addr _) = addr
address other_family = []

abbrev pub port_of : SockAddr → ℕ
port_of (inet _ port) = port
port_of (inet6 _ port) = port
port_of other_family = 0

-- The size that the family's address has.
abbrev pub IsAddr : SockAddr → Type 0
IsAddr (inet addr _) = length addr ≡ 4
IsAddr (inet6 addr _) = length addr ≡ 16
IsAddr other_family = ⊥

-- With room for 22 bytes in a valid buffer, `fill_request_reply_addr` on an IPv4 address of 4
-- bytes or an IPv6 address of 16 bytes appends one whole reply that carries it and its port.
pub fill_reply_addr_lem :
    (rep : ℕ) (sa : SockAddr) {b : Buffer}
    → IsAddr sa
    → IsValid b
    → b.write + 22 ≤ b.limit
    → (b' : Buffer) × (fill_reply_addr b rep sa ≡ some (true, b'))
      × Pushed b b' (reply rep (family_atyp sa) (address sa) (port_of sa))
unfolding fill_reply_addr
fill_reply_addr_lem rep (inet addr port) {b} w v h =
    let whole : take 4 addr ≡ addr = take_all 4 addr (omega arith) in
    let (b', runs, p) =
      write_reply_lem rep atyp_ipv4 (some addr) 4 port v
        (omega (arith, ap (length {A = ℕ}) whole)) in
    (b', rw runs, subst (λ a. Pushed b b' (reply rep atyp_ipv4 a port)) whole p)
fill_reply_addr_lem rep (inet6 addr port) {b} w v h =
    let whole : take 16 addr ≡ addr = take_all 16 addr (omega arith) in
    let (b', runs, p) =
      write_reply_lem rep atyp_ipv6 (some addr) 16 port v
        (omega (arith, ap (length {A = ℕ}) whole)) in
    (b', rw runs, subst (λ a. Pushed b b' (reply rep atyp_ipv6 a port)) whole p)
fill_reply_addr_lem rep other_family w v h = absurd w
