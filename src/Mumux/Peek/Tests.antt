-- ===== src/Mumux/Peek/Tests.antt =====
-- Request sizes at concrete buffers.
use mavicona.Base.{◌≡◌, refl, some, [], ◌∷◌}
use mavicona.Mumux.Peek.{peek_request_size, peek_from}

peek_whole : peek_request_size (b'G' ∷ b'\r' ∷ b'\n' ∷ b'\r' ∷ b'\n' ∷ b'x' ∷ []) ≡ some 5
unfolding peek_request_size peek_from
peek_whole = refl
