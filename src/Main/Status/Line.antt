-- ===== src/Main/Status/Line.antt =====
-- What systemd reads of the status datagram, which it takes for one assignment a line.
use sparkwrangler.Base.Int.{ℤ, pos, negsuc, ltb_ℤ}
use sparkwrangler.Base.{
  ℕ, Bool, true, false, Option, none, some, [], ◌∷◌, ◌++◌, ◌==◌, ◌≡◌, ◌↔◌, refl, arith, Bytes,
  codes, All, All-append, All-map, Bool-cases, inl, inr,
}
use sparkwrangler.Float.{Float}
use sparkwrangler.Main.Status.{
  status_line, status_of, worker_status, running_part, waiting_part, usage_part,
}
use sparkwrangler.Publisher.State.{State}
use sparkwrangler.Sdnotify.{Notifier, status, send, enabled}
use sparkwrangler.Text.Decimal.{format_int, format_nat, format_nat-IsDigit, is_digit}
use sparkwrangler.Text.Search.{Lacks}

-- A text on one line.
abbrev pub IsOneLine : Bytes → Type 0
IsOneLine = Lacks b'\n'

IsOneLine-append : (s t : Bytes) → IsOneLine s → IsOneLine t → IsOneLine (s ++ t)
IsOneLine-append s t h k = All-append _ s t h k

IsOneLine-front : (s t : Bytes) → IsOneLine (s ++ t) → IsOneLine s
IsOneLine-front [] t h = tt
IsOneLine-front (c ∷ s) t h = (h.0, IsOneLine-front s t h.1)

IsOneLine-back : (s t : Bytes) → IsOneLine (s ++ t) → IsOneLine t
IsOneLine-back [] t h = h
IsOneLine-back (c ∷ s) t h = IsOneLine-back s t h.1

digit_on_line : (c : ℕ) → is_digit c ≡ true → (c == b'\n') ≡ false
digit_on_line c h = ground arith

pub format_int-IsOneLine : (n : ℤ) → IsOneLine (format_int n)
unfolding format_int
format_int-IsOneLine (pos n) = All-map digit_on_line (format_nat n) (format_nat-IsDigit n)
format_int-IsOneLine (negsuc n) =
    (refl, All-map digit_on_line (format_nat _) (format_nat-IsDigit _))

running_part-IsOneLine : (o : Option ℤ) → IsOneLine (running_part o)
unfolding running_part
running_part-IsOneLine none = tt
running_part-IsOneLine (some n) = (
  refl,
  (
    refl,
    IsOneLine-append (format_int n) (codes " running") (format_int-IsOneLine n) (ground arith),
  ),
)

waiting_part-IsOneLine : (o : Option ℤ) → IsOneLine (waiting_part o)
unfolding waiting_part
waiting_part-IsOneLine none = tt
waiting_part-IsOneLine (some n) = elim (Bool-cases (ltb_ℤ (pos 0) n)) [
  | inl busy ↦ rw busy (
      IsOneLine-append (codes ", ") _ (ground arith) (
        IsOneLine-append (format_int n) (codes " waiting") (format_int-IsOneLine n) (ground arith)))
  | inr idle ↦ rw idle tt
]

module _ {F : Type 0} ⦃fl : Float F⦄
    (prints : (n : ℕ) (x : F) → IsOneLine (fl.format_fixed n x)) where
  usage_part-IsOneLine : (o : Option F) → IsOneLine (usage_part o)
  unfolding usage_part
  usage_part-IsOneLine none = tt
  usage_part-IsOneLine (some x) =
      IsOneLine-append (codes ", KV ") _ (ground arith)
        (IsOneLine-append _ (codes "%") (prints 1 x) (ground arith))

  worker_status-IsOneLine : (o : Option F) → IsOneLine (worker_status o)
  unfolding worker_status
  worker_status-IsOneLine none = ground arith
  worker_status-IsOneLine (some x) =
      IsOneLine-append (codes "worker node, GPU ") _ (ground arith)
        (IsOneLine-append _ (codes "%") (prints 0 x) (ground arith))

  status_of_iff :
      (up : Option Bool) (s : State F)
      → IsOneLine (status_of up s) ↔ ((up ≡ some true) → IsOneLine s.model)
  unfolding status_of
  status_of_iff none s = ((λ h e. cc e), λ h. worker_status-IsOneLine s.gpu_utilization_pct)
  status_of_iff (some false) s = ((λ h e. cc e), λ h. ground arith)
  status_of_iff (some true) s = (
    (λ h e.
        IsOneLine-back (codes "serving ") s.model
          (IsOneLine-front (codes "serving " ++ s.model) _ h)),
    λ h.
        IsOneLine-append (codes "serving " ++ s.model) _
          (IsOneLine-append (codes "serving ") s.model (ground arith) (h refl))
          (IsOneLine-append _ _ (running_part-IsOneLine s.requests_running) (
            IsOneLine-append _ _ (waiting_part-IsOneLine s.requests_waiting)
              (usage_part-IsOneLine s.kv_cache_usage_pct))),
  )

  -- If the print of a number stays on its line, the status datagram of a node under systemd is one line,
  -- and so one assignment, exactly if the engine is not up or the name of its model is on one line: a line
  -- feed in the name that the server gives its model would start another assignment.
  pub status_iff :
      (writes : Bytes → Bool) (n : Notifier) (s : State F)
      → enabled n ≡ true
      → All IsOneLine (status writes n (status_line s)).datagrams
        ↔ ((s.vllm_up ≡ some true) → IsOneLine s.model)
  unfolding status send status_line
  status_iff writes n s on =
      let (out, back) = status_of_iff s.vllm_up s in
      rw on (
        (λ h. out (IsOneLine-back (codes "STATUS=") (status_of s.vllm_up s) h.0)),
        λ h. (IsOneLine-append (codes "STATUS=") _ (ground arith) (back h), tt),
      )
