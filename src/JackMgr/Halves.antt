-- ===== src/JackMgr/Halves.antt =====
-- jack_fport_new splits the name of a port as jack_mgr_port_notification does.
use gnu_lash.Prelude.{
  ℕ, ◌-◌, ◌≡◌, refl, sym, ap, ◌∙◌, inl, inr, Option, some, [], ◌∷◌, ◌++◌, Str, length,
  length-append, arith, Option-cases,
}
use gnu_lash.JackPatch.Manager.{split_port}
use gnu_lash.JackPatch.Manager.Names.{split_port-join}
use gnu_lash.JackMgr.Types.{after_colon, take, halves, fport_new}

take-append : (s t : Str) → take (length s) (s ++ t) ≡ s
take-append [] t = refl
take-append (c ∷ s) t = ap (λ r. c ∷ r) (take-append s t)

halves-join : (s t : Str) → halves (s ++ b':' ∷ t) (some t) ≡ (s, t)
unfolding halves
halves-join s t =
    let n : length (s ++ b':' ∷ t) - length t - 1 ≡ length s =
      omega (arith, length-append s (b':' ∷ t)) in
    rw (n, take-append s (b':' ∷ t)) refl

split_port-after_colon :
    (name client port : Str) → split_port name ≡ some (client, port) → after_colon name ≡ some port
unfolding split_port after_colon
split_port-after_colon [] client port e = absurd (ground arith)
split_port-after_colon (c ∷ s) client port e = elim (Option-cases (split_port s)) [
  | inl h ↦ ground arith
  | inr ((before, after), h) ↦ ground (arith, split_port-after_colon s before after h)
]

-- The name of the client in a foreign port is the one that was looked up.
pub client_name-fport_new :
    (id : ℕ) (name client port : Str)
    → split_port name ≡ some (client, port)
    → (fport_new id name).client_name ≡ client
unfolding fport_new
client_name-fport_new id name client port e =
    let joined = split_port-join name client port e in
    ap (λ (r : Option Str). (halves name r).0) (split_port-after_colon name client port e)
    ∙ ap (λ n. (halves n (some port)).0) (sym joined)
    ∙ ap (λ (r : Str × Str). r.0) (halves-join client port)
