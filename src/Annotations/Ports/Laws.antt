-- ===== src/Annotations/Ports/Laws.antt =====
-- Lists of ports in annotations.
use scaleway_cloud_controlle.Base.{
  ℤ, int_eq, String, true, some, List, [], ◌∷◌, ok, ◌≡◌, refl, arith, any,
}
use scaleway_cloud_controlle.Base.Parse.{parse_int}
use scaleway_cloud_controlle.Annotations.Ports.{is_valid_port, port_loop}

-- Texts and the valid port numbers that they stand for.
abbrev pub Denote : List String → List ℤ → Type 0
Denote [] [] = Unit
Denote (text ∷ texts) (port ∷ ports) =
    (parse_int text ≡ some port) × (is_valid_port port ≡ true) × Denote texts ports
Denote _ _ = ⊥

-- A port is in a list of valid port numbers exactly when one of the numbers is that port.
pub port_loop-any :
    (p : ℤ) (texts : List String) (ports : List ℤ)
    → Denote texts ports
    → port_loop p texts ≡ ok (any (int_eq p) ports)
unfolding port_loop
port_loop-any p [] [] h = refl
port_loop-any p (text ∷ texts) (port ∷ ports) (parsed, valid, h) =
    rw (port_loop, parsed, valid) (ground (arith, port_loop-any p texts ports h))
port_loop-any p [] (port ∷ ports) h = absurd h
port_loop-any p (text ∷ texts) [] h = absurd h
