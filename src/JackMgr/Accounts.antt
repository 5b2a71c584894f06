-- ===== src/JackMgr/Accounts.antt =====
-- What becomes of the patches that a client had when it was saved.
use gnu_lash.Prelude.{
  ◌≡◌, refl, sym, ap, subst, ◌∙◌, Bool, true, false, not, inl, inr, ◌⊎◌, Option, none, some, List,
  [], ◌∷◌, In, Str, ◌>>=◌, bind_assoc, Bool-cases, arith,
}
use gnu_lash.Uuid.{UuidLib}
use gnu_lash.JackPatch.Types.{JackPatch, patch_dup}
use gnu_lash.JackPatch.Manager.{MgrClient, patch_unset}
use gnu_lash.JackMgr.Types.{Jack}
use gnu_lash.JackMgr.Resume.{resume_patch, resume_unset, resume_one, resume_old}
use gnu_lash.JackMgr.Returns.{
  IsGiven, IsNamed, IsComplete, resolve, has_port-returns, resolve-returns,
}

-- `Has w s t` says that the port `s` is connected to `t` in the server's state `w`: jack_connect makes
-- a connection where it succeeds, and never undoes one.
module _ {World : Type 0} (lib : UuidLib) (jack : Jack World) (Has : World → Str → Str → Type 0)
    (makes : (w : World) (s t : Str)
      → (jack.connect w s t).1 ≡ true
      → Has (jack.connect w s t).0 s t)
    (leaves : (w : World) (s t s' t' : Str) → Has w s' t' → Has (jack.connect w s t).0 s' t')
    (k : MgrClient) (ks : List MgrClient) (name port : Str) where
  -- The ports that the patch names now are connected.
  pub record IsConnected (w : World) (patch : JackPatch) : Type 0 where
    pub source : Str
    pub target : Str
    pub now : JackPatch
    pub resolved : resolve lib k ks patch ≡ some (now, true)
    pub source_desc : now.src_desc ≡ some source
    pub target_desc : now.dest_desc ≡ some target
    pub connected : Has w source target

  IsConnected-grows :
      (w w' : World) (patch : JackPatch)
      → ((s t : Str) → Has w s t → Has w' s t)
      → IsConnected w patch
      → IsConnected w' patch
  IsConnected-grows w w' patch grows c = record {
    source = c.source;
    target = c.target;
    now = c.now;
    resolved = c.resolved;
    source_desc = c.source_desc;
    target_desc = c.target_desc;
    connected = grows c.source c.target c.connected;
  }

  IsGiven-value : (o : Option Str) → IsGiven o → (s : Str) × (o ≡ some s)
  IsGiven-value none h = absurd h
  IsGiven-value (some s) h = (s, refl)

  -- What one round does behind jack_patch_unset.
  resume_unset-returns :
      (w : World) (q : JackPatch)
      → IsNamed q
      → (w' : World) × (keep : Bool) × (resume_unset lib jack w name port (q, true)
          ≡ some (w', keep))
        × (keep ≡ false
            → (s : Str) × (t : Str) × (q.src_desc ≡ some s) × (q.dest_desc ≡ some t) × Has w' s t)
        × ((s t : Str) → Has w s t → Has w' s t)
  unfolding resume_unset resume_patch
  resume_unset-returns w q h =
      let (b, e) = has_port-returns q name port h in
      let (s, f) = IsGiven-value q.src_desc h.4 in
      let (t, g) = IsGiven-value q.dest_desc h.5 in
      let r = jack.connect w s t in
      elim (Bool-cases b) [
        | inr n ↦ (w, true, rw (e, n) refl, λ x. absurd (cc x), λ s' t' c. c)
        | inl y ↦ (
          r.0,
          not r.1,
          rw (e, y, f, g) refl,
          λ x. (s, t, f, g, makes w s t (ground (arith, x))),
          leaves w s t,
        )
      ]

  -- One round returns, and a patch that it does not keep is connected.
  resume_one-returns :
      (w : World) (patch : JackPatch)
      → IsComplete lib k ks patch
      → (w' : World) × (keep : Bool) × (resume_one lib jack w (k ∷ ks) name port patch
          ≡ some (w', keep))
        × (keep ≡ false → IsConnected w' patch)
        × ((s t : Str) → Has w s t → Has w' s t)
  unfolding resume_one
  resume_one-returns w patch h =
      let (q, e, named) = resolve-returns lib k ks patch h in
      let (w', keep, f, made, grows) = resume_unset-returns w q named in
      let rest = resume_unset lib jack w name port in
      let returns =
        sym (bind_assoc (patch_dup lib patch) (λ copy. patch_unset lib copy (k ∷ ks)) rest)
        ∙ ap (λ (o : Option (JackPatch × Bool)). o >>= rest) e
        ∙ f in
      (
        w',
        keep,
        returns,
        λ x.
            let (s, t, sd, td, c) = made x in
            record {
              source = s;
              target = t;
              now = q;
              resolved = e;
              source_desc = sd;
              target_desc = td;
              connected = c;
            },
        grows,
      )

  abbrev pub AllComplete : List JackPatch → Type 0
  AllComplete [] = Unit {0}
  AllComplete (p ∷ ps) = IsComplete lib k ks p × AllComplete ps

  -- When a client's port appears, jack_mgr_new_client_port returns if the client's old patches are
  -- complete: their ports have names, and their clients names or IDs. Each patch is kept, or the
  -- ports that it names now are connected in the end. Nothing else is kept.
  pub resume_old-returns :
      (patches : List JackPatch) (w : World)
      → AllComplete patches
      → (w' : World) × (kept : List JackPatch) × (resume_old lib jack patches w (k ∷ ks) name port
          ≡ some (w', kept))
        × ((p : JackPatch) → In p patches → In p kept ⊎ IsConnected w' p)
        × ((p : JackPatch) → In p kept → In p patches)
        × ((s t : Str) → Has w s t → Has w' s t)
  unfolding resume_old
  resume_old-returns [] w h = (w, [], refl, λ p m. inl m, λ p m. m, λ s t c. c)
  resume_old-returns (patch ∷ patches) w h =
      let (v, keep, e, made, grows) = resume_one-returns w patch h.0 in
      let (w', rest, f, all, only, grows') = resume_old-returns patches v h.1 in
      let both : (s t : Str) → Has w s t → Has w' s t = λ s t c. grows' s t (grows s t c) in
      elim (Bool-cases keep) [
        | inl y ↦ (
          w',
          patch ∷ rest,
          rw (e, f, y) refl,
          λ p m. elim m [
            | inl q ↦ inl (inl q)
            | inr r ↦ elim (all p r) [ inl l ↦ inl (inr l) | inr c ↦ inr c ]
          ],
          λ p m. elim m [ inl q ↦ inl q | inr r ↦ inr (only p r) ],
          both,
        )
        | inr n ↦ (
          w',
          rest,
          rw (e, f, n) refl,
          λ p m. elim m [
            | inl q ↦
                inr (subst (IsConnected w') (sym q) (IsConnected-grows v w' patch grows' (made n)))
            | inr r ↦ all p r
          ],
          λ p m. inr (only p m),
          both,
        )
      ]
