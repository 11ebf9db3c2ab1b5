-- ===== src/ControlPlane/PendingQueue/Keys.antt =====
-- queueKey of controlplane/pending_queue.go joins a hash and an experiment by a colon.
use Prim.Native.Char.{code}
use Prim.Native.String.{◌++◌ as append}
use Prim.Native.String.append
use go_cloud_des.Prelude.{ℕ, ◌≡◌, ◌≢◌, String, refl, ap, ◌∙◌, sym}
use go_cloud_des.ControlPlane.PendingQueue.{queue_key}

-- No character is a colon. Model hashes are 64 hexadecimal digits.
abbrev pub ColonFree : String → Type 0
ColonFree String.[] = Unit
ColonFree (String.◌∷◌ c s) = (code c ≢ 58) × ColonFree s

head : String → ℕ
head String.[] = 0
head (String.◌∷◌ c s) = code c

tail : String → String
tail String.[] = ""
tail (String.◌∷◌ c s) = s

head-colon : (x : String) → head (append ":" x) ≡ 58
unfolding head
head-colon x = rw (append.cons)

tail-colon : (x : String) → tail (append ":" x) ≡ x
unfolding tail
tail-colon x = rw (append.cons) (append.nil x)

join-injective :
    (a b x y : String)
    → ColonFree a
    → ColonFree b
    → append a (append ":" x) ≡ append b (append ":" y)
    → (a ≡ b) × (x ≡ y)
unfolding head
join-injective String.[] String.[] x y ha hb h =
    let e = simp append.nil at h in (refl, cc (tail-colon x, tail-colon y, ap tail e))
join-injective String.[] (String.◌∷◌ c b) x y ha hb h =
    let e = simp (append.nil, append.cons) at h in
    absurd (hb.0 (sym (sym (head-colon x) ∙ ap head e)))
join-injective (String.◌∷◌ c a) String.[] x y ha hb h =
    let e = simp (append.nil, append.cons) at h in absurd (ha.0 (ap head e ∙ head-colon y))
join-injective (String.◌∷◌ c a) (String.◌∷◌ d b) x y ha hb h =
    let e = simp (append.cons) at h in
    let rest = join-injective a b x y ha.1 hb.1 (cc) in (cc (rest.0), rest.1)

-- Hashes with no colon keep the experiments of one queue apart.
pub queue_key-injective :
    (h k e f : String)
    → ColonFree h
    → ColonFree k
    → queue_key h e ≡ queue_key k f
    → (h ≡ k) × (e ≡ f)
unfolding queue_key
queue_key-injective h k e f = join-injective h k e f
