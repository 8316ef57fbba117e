-- ===== src/Negotiation/Policy.antt =====
-- The reply of the negotiation and the method that it chooses.
use protos_tpe.Prelude.{◌+◌, ◌≤◌, ◌≡◌, Bool, true, some, [], ◌∷◌, ◌⊎◌, arith, if◌then◌else◌}
use protos_tpe.Buffer.{Buffer, IsValid}
use protos_tpe.Buffer.Writes.{Pushed, Pushed-trans, write_byte_room}
use protos_tpe.Negotiation.{
  Parser, choose_method, fill_reply, socks5_version, method_noauth, method_userpass, method_none,
}

-- With room for two bytes, the reply returns the chosen method and appends the version and that
-- method to what the valid buffer holds.
pub fill_reply-method :
    (p : Parser) (require_auth : Bool) {b : Buffer}
    → IsValid b
    → b.write + 2 ≤ b.limit
    → (b' : Buffer) × (fill_reply p b require_auth ≡ some (choose_method p require_auth, b'))
      × Pushed b b' (socks5_version ∷ choose_method p require_auth ∷ [])
unfolding fill_reply
fill_reply-method p require_auth {b} v h =
    let method = choose_method p require_auth in
    let (m, first, q) = write_byte_room socks5_version v (omega arith) in
    let (b', second, r) =
      write_byte_room method q.valid (omega (arith, q.advanced, q.same_limit)) in
    (b', rw first (rw second), Pushed-trans q r)

-- The chosen method is none, or it is user/password if authentication is required and no-auth if it
-- is not, and then the client has offered it.
pub choose_method_policy :
    (p : Parser) (require_auth : Bool)
    → (choose_method p require_auth ≡ method_none)
      ⊎ ((choose_method p require_auth ≡ (if require_auth then method_userpass else method_noauth))
          × ((if require_auth then p.has_userpass else p.has_noauth) ≡ true))
unfolding choose_method
choose_method_policy p r = ground arith
