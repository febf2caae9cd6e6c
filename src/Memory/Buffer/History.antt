-- ===== src/Memory/Buffer/History.antt =====
-- The buffer of memory/buffer.rs against the list of all messages that were ever added.
use wend_rag.Base.{
  ℕ, zero, suc, ◌-◌, ◌≤◌, List, [], ◌∷◌, ◌++◌, true, false, ◌&&◌, ltb, length, map, take, drop,
  take-append-drop, length-take, reverse, min, max, ◌≡◌, refl, sym, ap, ◌∙◌, arith, Bool-cases, inl,
  inr, length-append, append-nil, append_assoc,
}
use wend_rag.Base.Text.{Text}
use mathlib.Core.List.{reverse-append, reverse-cons, reverse-reverse}
use wend_rag.Memory.Buffer.{
  SessionConfig, SessionBuffer, new, pop_while, trim_old_messages, apply_sliding_window,
  add_message, get_recent_messages, message_count, summarize,
}

-- The calls that change a buffer.
pub data Call (M : Type 0) : Type 0 where
  add : ℕ → M → Call M
  slide : Call M
  sum_up : Text → Call M

module _ {M : Type 0} where
  unfoldable pub call : Call M → SessionBuffer M → SessionBuffer M
  call (add now m) b = add_message now m b
  call slide b = apply_sliding_window b
  call (sum_up t) b = summarize t b

  unfoldable pub run : List (Call M) → SessionBuffer M → SessionBuffer M
  unfolding call
  run [] b = b
  run (c ∷ cs) b = run cs (call c b)

  -- The messages that the calls add, in order.
  abbrev pub added : List (Call M) → List M
  added [] = []
  added (add now m ∷ cs) = m ∷ added cs
  added (slide ∷ cs) = added cs
  added (sum_up t ∷ cs) = added cs

  -- `xs` is the end of `ys`.
  abbrev pub IsEnd : List M → List M → Type 0
  IsEnd xs ys = (zs : List M) × (zs ++ xs ≡ ys)

  drop-nil : (n : ℕ) → drop {A = M} n [] ≡ []
  drop-nil zero = refl
  drop-nil (suc n) = refl

  pop_while-drop : (n : ℕ) (xs : List M) → pop_while n xs ≡ drop (length xs - n) xs
  unfolding pop_while
  pop_while-drop n [] = sym (drop-nil (0 - n))
  pop_while-drop n (x ∷ xs) = elim (Bool-cases (ltb n (suc (length xs)))) [
    | inl e ↦
        let more : suc (length xs - n) ≡ suc (length xs) - n = ground (arith, e) in
        rw e (pop_while-drop n xs ∙ ap (λ k. drop k (x ∷ xs)) more)
    | inr e ↦
        let none_over : 0 ≡ suc (length xs) - n = ground (arith, e) in
        rw e (ap (λ k. drop k (x ∷ xs)) none_over)
  ]

  IsEnd-drop : (n : ℕ) (xs ys : List M) → IsEnd xs ys → IsEnd (drop n xs) ys
  IsEnd-drop n xs ys (zs, e) = (
    zs ++ take n xs,
    append_assoc zs (take n xs) (drop n xs) ∙ ap (λ t. zs ++ t) (take-append-drop n xs) ∙ e,
  )

  IsEnd-push : (x : M) (xs ys : List M) → IsEnd xs ys → IsEnd (xs ++ x ∷ []) (ys ++ x ∷ [])
  IsEnd-push x xs ys (zs, e) = (zs, sym (append_assoc zs xs (x ∷ [])) ∙ ap (λ t. t ++ x ∷ []) e)

  IsEnd-pop_while : (n : ℕ) (xs ys : List M) → IsEnd xs ys → IsEnd (pop_while n xs) ys
  IsEnd-pop_while n xs ys h = rw (pop_while-drop n xs) (IsEnd-drop (length xs - n) xs ys h)

  add_message-IsEnd :
      (now : ℕ) (m : M) (b : SessionBuffer M) (past : List M)
      → IsEnd b.messages past
      → IsEnd (add_message now m b).messages (past ++ m ∷ [])
  unfolding add_message trim_old_messages
  add_message-IsEnd now m b past h =
      let pushed = IsEnd-push m b.messages past h in
      elim (Bool-cases (
        ltb b.config.max_messages (length (b.messages ++ m ∷ []))
        && b.config.enable_summarization)) [
          | inl e ↦ rw e (
              IsEnd-pop_while b.config.keep_recent_after_summary (b.messages ++ m ∷ [])
                (past ++ m ∷ []) pushed)
          | inr e ↦ rw e pushed
        ]

  run-IsEnd :
      (cs : List (Call M)) (b : SessionBuffer M) (past : List M)
      → IsEnd b.messages past
      → IsEnd (run cs b).messages (past ++ added cs)
  unfolding run
  run-IsEnd [] b past h = rw (append-nil past) h
  run-IsEnd (add now m ∷ cs) b past h =
      let rest =
        run-IsEnd cs (add_message now m b) (past ++ m ∷ []) (add_message-IsEnd now m b past h) in
      rw (sym (append_assoc past (m ∷ []) (added cs))) rest
  run-IsEnd (slide ∷ cs) b past h =
      run-IsEnd cs (apply_sliding_window b) past
        (unfold apply_sliding_window in IsEnd-pop_while b.config.max_messages b.messages past h)
  run-IsEnd (sum_up t ∷ cs) b past h = run-IsEnd cs (summarize t b) past (
      unfold summarize in
      unfold trim_old_messages in
      IsEnd-pop_while b.config.keep_recent_after_summary b.messages past h)

  length-reverse : (xs : List M) → length (reverse xs) ≡ length xs
  length-reverse [] = refl
  length-reverse (x ∷ xs) = rw (reverse-cons x xs, length-append) (omega (arith, length-reverse xs))

  IsEnd-trans : (xs ys zs : List M) → IsEnd xs ys → IsEnd ys zs → IsEnd xs zs
  IsEnd-trans xs ys zs (us, e) (vs, f) = (vs ++ us, append_assoc vs us xs ∙ ap (λ t. vs ++ t) e ∙ f)

  get_recent_messages-IsEnd :
      (n : ℕ) (b : SessionBuffer M) → IsEnd (get_recent_messages n b) b.messages
  unfolding get_recent_messages
  get_recent_messages-IsEnd n b =
      let r = reverse b.messages in
      (
        reverse (drop n r),
        sym (reverse-append (take n r) (drop n r))
            ∙ ap reverse (take-append-drop n r)
            ∙ reverse-reverse b.messages,
      )

  length-get_recent_messages :
      (n : ℕ) (b : SessionBuffer M) → length (get_recent_messages n b) ≡ min n (message_count b)
  unfolding get_recent_messages message_count
  length-get_recent_messages n b =
      length-reverse (take n (reverse b.messages))
      ∙ length-take n (reverse b.messages)
      ∙ ap (min n) (length-reverse b.messages)

  -- Whatever calls are made on a new buffer, messages added, old ones dropped and the session
  -- summarized in any order, its recent messages are the last of all the messages ever added, in
  -- their order, and they are as many as were asked for or as the buffer holds.
  pub get_recent_messages-run :
      (s : Text) (c : SessionConfig) (start : ℕ) (cs : List (Call M)) (n : ℕ)
      → let b = run cs (new s c start) in
        IsEnd (get_recent_messages n b) (added cs)
        × (length (get_recent_messages n b) ≡ min n (message_count b))
  get_recent_messages-run s c start cs n =
      let b = run cs (new s c start) in
      let whole = run-IsEnd cs (new s c start) [] (unfold new in ([], refl)) in
      (
        IsEnd-trans (get_recent_messages n b) b.messages (added cs) (get_recent_messages-IsEnd n b)
            whole,
        length-get_recent_messages n b,
      )

  length-pop_while : (n : ℕ) (xs : List M) → length (pop_while n xs) ≡ min n (length xs)
  unfolding pop_while
  length-pop_while n [] = omega arith
  length-pop_while n (x ∷ xs) = ground (arith, length-pop_while n xs)

  -- The configuration is `c`, and no more messages are held than it allows.
  abbrev pub IsBounded : SessionConfig → SessionBuffer M → Type 0
  IsBounded c b =
      (b.config ≡ c) × (length b.messages ≤ max c.max_messages c.keep_recent_after_summary)

  add_message-IsBounded :
      (c : SessionConfig) (now : ℕ) (m : M) (b : SessionBuffer M)
      → c.enable_summarization ≡ true
      → IsBounded c b
      → IsBounded c (add_message now m b)
  unfolding add_message trim_old_messages
  add_message-IsBounded c now m b on (e, h) =
      let ms = b.messages ++ m ∷ [] in
      let on_b : b.config.enable_summarization ≡ true = ap (λ d. d.enable_summarization) e ∙ on in
      let top : b.config.max_messages ≡ c.max_messages = ap (λ d. d.max_messages) e in
      let keep : b.config.keep_recent_after_summary ≡ c.keep_recent_after_summary =
        ap (λ d. d.keep_recent_after_summary) e in
      elim (Bool-cases (ltb b.config.max_messages (length ms))) [
        | inl l ↦
            let over : (ltb b.config.max_messages (length ms) && b.config.enable_summarization)
                ≡ true =
              ap (λ t. t && b.config.enable_summarization) l ∙ on_b in
            let trimmed = length-pop_while b.config.keep_recent_after_summary ms in
            rw over (e, omega arith)
        | inr l ↦
            let le : length ms ≤ b.config.max_messages = ground (arith, l) in
            let within : (ltb b.config.max_messages (length ms) && b.config.enable_summarization)
                ≡ false =
              ap (λ t. t && b.config.enable_summarization) l in
            rw within (e, omega arith)
      ]

  call-IsBounded :
      (c : SessionConfig) (d : Call M) (b : SessionBuffer M)
      → c.enable_summarization ≡ true
      → IsBounded c b
      → IsBounded c (call d b)
  unfolding call apply_sliding_window summarize trim_old_messages
  call-IsBounded c (add now m) b on h = add_message-IsBounded c now m b on h
  call-IsBounded c slide b on (e, h) =
      let popped = length-pop_while b.config.max_messages b.messages in (e, omega arith)
  call-IsBounded c (sum_up t) b on (e, h) =
      let popped = length-pop_while b.config.keep_recent_after_summary b.messages in
      (e, omega arith)

  run-IsBounded :
      (c : SessionConfig) (cs : List (Call M)) (b : SessionBuffer M)
      → c.enable_summarization ≡ true
      → IsBounded c b
      → IsBounded c (run cs b)
  unfolding run
  run-IsBounded c [] b on h = h
  run-IsBounded c (d ∷ cs) b on h = run-IsBounded c cs (call d b) on (call-IsBounded c d b on h)

  -- With summarization enabled, a buffer holds at no time more messages than the larger of
  -- `max_messages` and `keep_recent_after_summary`, whatever calls are made on it.
  pub message_count-run :
      (s : Text) (c : SessionConfig) (start : ℕ) (cs : List (Call M))
      → c.enable_summarization ≡ true
      → message_count (run cs (new s c start)) ≤ max c.max_messages c.keep_recent_after_summary
  unfolding message_count
  message_count-run s c start cs on =
      let h : IsBounded c (new s c start) = unfold new in (refl, omega arith) in
      (run-IsBounded c cs (new s c start) on h).1

  add_message-off :
      (now : ℕ) (m : M) (b : SessionBuffer M)
      → b.config.enable_summarization ≡ false
      → ((add_message now m b).messages ≡ b.messages ++ m ∷ [])
        × ((add_message now m b).config.enable_summarization ≡ false)
  unfolding add_message
  add_message-off now m b off =
      let within : (ltb b.config.max_messages (length (b.messages ++ m ∷ []))
            && b.config.enable_summarization)
          ≡ false =
        ground (arith, off) in
      rw within (refl, off)

  -- The call that adds a message at a time.
  abbrev pub add_at : ℕ × M → Call M
  add_at p = add p.0 p.1

  run-off :
      (ps : List (ℕ × M)) (b : SessionBuffer M)
      → b.config.enable_summarization ≡ false
      → (run (map add_at ps) b).messages ≡ b.messages ++ added (map add_at ps)
  unfolding run
  run-off [] b off = sym (append-nil b.messages)
  run-off (p ∷ ps) b off =
      let step = add_message-off p.0 p.1 b off in
      run-off ps (add_message p.0 p.1 b) step.1
      ∙ ap (λ ms. ms ++ added (map add_at ps)) step.0
      ∙ append_assoc b.messages (p.1 ∷ []) (added (map add_at ps))

  -- With summarization disabled, a buffer to which messages are only added keeps every one of them,
  -- in order: `max_messages` bounds nothing.
  pub run_unbounded :
      (s : Text) (c : SessionConfig) (start : ℕ) (ps : List (ℕ × M))
      → c.enable_summarization ≡ false
      → (run (map add_at ps) (new s c start)).messages ≡ added (map add_at ps)
  run_unbounded s c start ps off =
      run-off ps (new s c start) (unfold new in off) ∙ (unfold new in refl)
