-- ===== src/Auth/Replies.antt =====
-- src/gs-auth-pam.c: what a conversation and a stack of modules do with the messages.
use mathlib.Core.List.{append-nil, append_assoc}
use budgie_screensaver.Common.{
  sym, ◌∙◌, if-cases, ℕ, ◌+◌, ◌<◌, ◌≤◌, ◌≡◌, refl, Bool, true, false, Option, none, some, List, [],
  ◌∷◌, ◌++◌, length, arith, Option-cases, inl, inr, length-append,
}
use budgie_screensaver.Auth.{
  Style, PamMessage, Pam, Conversation, Handler, Stack, Outcome, replies, interrupted, killed,
  aborted, finish, converse, finished, terminated, asserted, pam_style_to_gs_style, converse_all,
  pam_conversation, run_stack, auth_message_handler,
}
use budgie_screensaver.Auth.Utf8.{Glib, to_utf8}

-- Each message has a style that the source knows and, with its reply, satisfies `P`.
abbrev pub Paired :
    (P : Style → Option (List ℕ) → Type 0) → List PamMessage → List (Option (List ℕ)) → Type 0
Paired P [] [] = Unit
Paired P [] (r ∷ rs) = ⊥
Paired P (m ∷ ms) [] = ⊥
Paired P (m ∷ ms) (r ∷ rs) =
    ((style : Style) × (pam_style_to_gs_style m.msg_style ≡ some style) × P style r)
    × Paired P ms rs

-- Whenever the callback returns TRUE, its reply satisfies `P`.
abbrev pub Grants : {S : Type 0} → Handler S → (P : Style → Option (List ℕ) → Type 0) → Type 0
Grants {S} h P =
    (gui : S) (style : Style) (text : List ℕ)
    → let (gui', res, resp) = h.cb_func gui style text in res ≡ true → P style resp

-- What a conversation leaves: the replies are paired with the messages; an interrupted one has
-- freed a reply for some of the messages and no more.
abbrev pub Ends :
    {S : Type 0}
    → (P : Style → Option (List ℕ) → Type 0) → List PamMessage
    → (n : ℕ) (given : List (Option (List ℕ))) → Conversation S
    → Type 0
Ends P ms n given (replies rs c) =
    (more : List (Option (List ℕ))) × (rs ≡ given ++ more) × Paired P ms more
Ends P ms n given (interrupted freed c) =
    (length given < length freed) × (length freed ≤ length given + n)
Ends P ms n given (killed gui) = Unit
Ends P ms n given aborted = Unit

-- The same handle and the same mutex as before.
abbrev pub SameHandle : {S : Type 0} → Pam S → Pam S → Type 0
SameHandle c c' =
    (c'.handle ≡ c.handle)
    × (c'.started ≡ c.started)
    × (c'.ended ≡ c.ended)
    × (c'.cleared ≡ c.cleared)

abbrev pub KeepsHandle : {S : Type 0} → Pam S → Conversation S → Type 0
KeepsHandle c (replies rs c') = SameHandle c c'
KeepsHandle c (interrupted freed c') = SameHandle c c'
KeepsHandle c (killed gui) = Unit
KeepsHandle c aborted = Unit

abbrev pub LeavesHandle : {S : Type 0} → Pam S → Outcome S → Type 0
LeavesHandle c (finished status c') = SameHandle c c'
LeavesHandle c (terminated gui) = Unit
LeavesHandle c asserted = Unit

pub LeavesHandle-trans :
    {S : Type 0} (c c' : Pam S) (o : Outcome S)
    → SameHandle c c'
    → LeavesHandle c' o
    → LeavesHandle c o
LeavesHandle-trans c c' (finished status d) (h1, s1, e1, m1) (h2, s2, e2, m2) =
    (h2 ∙ h1, s2 ∙ s1, e2 ∙ e1, m2 ∙ m1)
LeavesHandle-trans c c' (terminated gui) same leaves = tt
LeavesHandle-trans c c' asserted same leaves = tt

pub data Split {S : Type 0} (r : Conversation S) : Type 0 where
  granted : (reply : List (Option (List ℕ))) (c : Pam S) → r ≡ replies reply c → Split r
  refused : (freed : List (Option (List ℕ))) (c : Pam S) → r ≡ interrupted freed c → Split r
  stopped : (gui : S) → r ≡ killed gui → Split r
  failed : r ≡ aborted → Split r

pub Conversation-cases : {S : Type 0} (r : Conversation S) → Split r
Conversation-cases (replies reply c) = granted reply c refl
Conversation-cases (interrupted freed c) = refused freed c refl
Conversation-cases (killed gui) = stopped gui refl
Conversation-cases aborted = failed refl

abbrev pub Settled :
    {S : Type 0}
    → (P : Style → Option (List ℕ) → Type 0) → List PamMessage
    → (allocated : Bool) → Conversation S
    → Type 0
Settled P ms allocated (replies rs c) = Paired P ms rs
Settled P ms allocated (interrupted freed c) =
    (allocated ≡ true → 0 < length freed) × (length freed ≤ length ms)
Settled P ms allocated (killed gui) = Unit
Settled P ms allocated aborted = Unit

Settled-Ends :
    {S : Type 0} (P : Style → Option (List ℕ) → Type 0) (ms : List PamMessage)
    (result : Conversation S)
    → Ends P ms (length ms) [] result
    → Settled P ms true result
Settled-Ends P ms (replies rs c) (more, e, pairs) = rw e pairs
Settled-Ends P ms (interrupted freed c) (lower, upper) = (λ e. lower, omega (arith, upper))
Settled-Ends P ms (killed gui) ends = tt
Settled-Ends P ms aborted ends = tt

module _ {S : Type 0} (glib : Glib) (h : Handler S) where
  module _ (P : Style → Option (List ℕ) → Type 0) (grants : Grants h P) where
    Ends-step :
        (m : PamMessage) (ms : List PamMessage) (style : Style) (given : List (Option (List ℕ)))
        (r : Option (List ℕ)) (result : Conversation S)
        → pam_style_to_gs_style m.msg_style ≡ some style
        → P style r
        → Ends P ms (length ms) (given ++ r ∷ []) result
        → Ends P (m ∷ ms) (length (m ∷ ms)) given result
    Ends-step m ms style given r (replies rs c) e p (more, eq, pairs) =
        (r ∷ more, eq ∙ append_assoc given (r ∷ []) more, ((style, e, p), pairs))
    Ends-step m ms style given r (interrupted freed c) e p (lower, upper) = (
      omega (arith, length-append given (r ∷ []), lower),
      omega (arith, length-append given (r ∷ []), upper),
    )
    Ends-step m ms style given r (killed gui) e p ends = tt
    Ends-step m ms style given r aborted e p ends = tt

    converse_all-Ends :
        (ms : List PamMessage) (given : List (Option (List ℕ))) (c : Pam S)
        → Ends P ms (length ms) given (converse_all glib h ms given c)
    unfolding converse_all
    converse_all-Ends [] given c = ([], sym (append-nil given), tt)
    converse_all-Ends (m ∷ ms) given c = elim (Option-cases (pam_style_to_gs_style m.msg_style)) [
      | inl e ↦ rw (e, converse_all) tt
      | inr (style, e) ↦
          rw (e, converse_all)
            (let text = to_utf8 glib m.msg in
              let asked = auth_message_handler style text c.did_we_ask_for_password in
              let (gui, res, resp) = h.cb_func c.gui style text in
              let c' = record c { did_we_ask_for_password = asked; gui = gui } in
              let Goal = λ (r : Conversation S). Ends P (m ∷ ms) (length (m ∷ ms)) given r in
              if-cases Goal (h.has_quit gui) _ _ (λ quit. tt)
                (λ stays.
                  if-cases Goal res _ _
                    (λ granted.
                      Ends-step m ms style given resp _ e (grants c.gui style text granted)
                        (converse_all-Ends ms (given ++ resp ∷ []) c'))
                    (λ refused. (
                      omega (arith, length-append given (resp ∷ [])),
                      omega (arith, length-append given (resp ∷ [])),
                    ))))
    ]

    -- With a callback that returns TRUE only for a reply that satisfies P: a conversation that ends
    -- with replies has one for each message, in order, all of them satisfy P for their message's
    -- style, and every style is one that the source knows. One that is interrupted has freed at
    -- most one reply for each message: at least one, or none if the allocation failed.
    pub pam_conversation-Ends :
        (ms : List PamMessage) (allocated : Bool) (c : Pam S)
        → Settled P ms allocated (pam_conversation glib h ms allocated c)
    unfolding pam_conversation
    pam_conversation-Ends ms true c =
        Settled-Ends P ms (converse_all glib h ms [] c) (converse_all-Ends ms [] c)
    pam_conversation-Ends ms false c = (λ e. cc, omega arith)

  converse_all-KeepsHandle :
      (ms : List PamMessage) (given : List (Option (List ℕ))) (c : Pam S)
      → KeepsHandle c (converse_all glib h ms given c)
  unfolding converse_all
  converse_all-KeepsHandle [] given c = (refl, refl, refl, refl)
  converse_all-KeepsHandle (m ∷ ms) given c =
      elim (Option-cases (pam_style_to_gs_style m.msg_style)) [
        | inl e ↦ rw (e, converse_all) tt
        | inr (style, e) ↦
            rw (e, converse_all)
              (let text = to_utf8 glib m.msg in
                let asked = auth_message_handler style text c.did_we_ask_for_password in
                let (gui, res, resp) = h.cb_func c.gui style text in
                let c' = record c { did_we_ask_for_password = asked; gui = gui } in
                if-cases (KeepsHandle c) (h.has_quit gui) _ _ (λ quit. tt)
                  (λ stays.
                    if-cases (KeepsHandle c) res _ _
                      (λ granted. converse_all-KeepsHandle ms (given ++ resp ∷ []) c')
                      (λ refused. (refl, refl, refl, refl))))
      ]

  pam_conversation-KeepsHandle :
      (ms : List PamMessage) (allocated : Bool) (c : Pam S)
      → KeepsHandle c (pam_conversation glib h ms allocated c)
  unfolding pam_conversation
  pam_conversation-KeepsHandle ms true c = converse_all-KeepsHandle ms [] c
  pam_conversation-KeepsHandle ms false c = (refl, refl, refl, refl)

  pub run_stack-LeavesHandle : (s : Stack) (c : Pam S) → LeavesHandle c (run_stack glib h s c)
  unfolding run_stack
  run_stack-LeavesHandle (finish status) c = (refl, refl, refl, refl)
  run_stack-LeavesHandle (converse ms allocated go) c =
      let keeps = pam_conversation-KeepsHandle ms allocated c in
      elim (Conversation-cases (pam_conversation glib h ms allocated c)) [
        | granted reply c' e ↦
            rw (e, run_stack)
              (LeavesHandle-trans c c' _ (rw e at keeps)
                (run_stack-LeavesHandle (go (some reply)) c'))
        | refused freed c' e ↦
            rw (e, run_stack)
              (LeavesHandle-trans c c' _ (rw e at keeps) (run_stack-LeavesHandle (go none) c'))
        | stopped gui e ↦ rw (e, run_stack) tt
        | failed e ↦ rw (e, run_stack) tt
      ]
