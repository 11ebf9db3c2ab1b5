-- ===== src/Codegen/Generator/Validate/Reachable.antt =====
-- canReachWaitTarget of codegen/generator/validate.go ends, and decides whether a way leads to the target.
use go_cloud_des.Prelude.{
  ℕ, zero, suc, ◌≡◌, ◌<◌, inl, inr, refl, sym, arith, Bool, true, false, ◌==◌, nat_eq, eq_iff,
  beq_refl, Option, none, some, List, [], ◌∷◌, if◌then◌else◌, contains, length, Bool-cases, subst,
}
use go_cloud_des.Codegen.Slices.{get_elem?, get_elem?-found}
use go_cloud_des.Codegen.Generator.Model.{
  BranchCase, BranchParams, BlockParams, create, queue, delay, seize, release, assign, branch,
  terminate, BlockDesc,
}
use go_cloud_des.Codegen.Generator.Validate.Reach.{
  Answer, follow, next_case, from_cases, from_params, can_reach_from, queue_next, can_reach,
}
use go_cloud_des.Codegen.Generator.Validate.Search.{
  LinksIn, unseen, unseen_bound, unseen-cons, unseen-le, Leads, here, step, Closed, Explores, found,
  closed, Closed-none, Closed-visited, Closed-node, Closed-cons, Closed-no_way,
}

-- The pointers of the cases, and that of the other branch.
abbrev pub case_links : List BranchCase → Bool → Option ℕ → List (Option ℕ)
case_links [] has_else other_next = if has_else then other_next ∷ [] else []
case_links (c ∷ cases) has_else other_next = c.next ∷ case_links cases has_else other_next

-- Where an entity goes on at once, without waiting.
abbrev pub passes_to : BlockParams → List (Option ℕ)
passes_to (assign params) = params.next ∷ []
passes_to (branch params) = case_links params.cases params.has_else params.else_next
passes_to _ = []

abbrev pub passes_from : Option BlockDesc → List (Option ℕ)
passes_from none = []
passes_from (some block) = passes_to block.params

abbrev pub successors : List BlockDesc → ℕ → List (Option ℕ)
successors blocks i = passes_from (get_elem? blocks i)

-- Every pointer of an ASSIGN or BRANCH block is set to a block.
abbrev pub IsPassable : List BlockDesc → Type 0
IsPassable blocks = (i : ℕ) → LinksIn (length blocks) (successors blocks i)

module _ (blocks : List BlockDesc) (target : ℕ) where
  -- What a call on one block must do.
  abbrev Goes : (ℕ → List ℕ → Answer) → List ℕ → Type 0
  Goes go visited =
      (at : ℕ) (u : List ℕ)
      → at < length blocks
      → ((x : ℕ) → contains x visited ≡ true → contains x u ≡ true)
      → Explores (successors blocks) target (some at ∷ []) u (go at u)

  follow-Explores :
      (go : ℕ → List ℕ → Answer) (visited : List ℕ) (link : Option ℕ)
      → Goes go visited
      → LinksIn (length blocks) (link ∷ [])
      → Explores (successors blocks) target (link ∷ []) visited (follow go visited link)
  follow-Explores go visited none goes ok_links = absurd ok_links
  follow-Explores go visited (some at) goes ok_links = goes at visited ok_links.0 (λ x h. h)

  cons-Explores :
      (at : ℕ) (links : List (Option ℕ)) (visited v : List ℕ) (o : Answer)
      → Closed (successors blocks) target (some at ∷ []) visited v
      → Explores (successors blocks) target links v o
      → Explores (successors blocks) target (some at ∷ links) visited o
  cons-Explores at links visited v o c (found j l way) = found j (ground (arith, l)) way
  cons-Explores at links visited v o c (closed {v = w} d) =
      closed (Closed-cons (successors blocks) target at links visited v w c d)

  next_case-Explores :
      (rest : List ℕ → Answer) (at : ℕ) (links : List (Option ℕ)) (visited : List ℕ) (o : Answer)
      → ((v : List ℕ)
          → Closed (successors blocks) target (some at ∷ []) visited v
          → Explores (successors blocks) target links v (rest v))
      → Explores (successors blocks) target (some at ∷ []) visited o
      → Explores (successors blocks) target (some at ∷ links) visited (next_case rest o)
  unfolding next_case
  next_case-Explores rest at links visited o goes_on (found j l way) =
      found j (ground (arith, l)) way
  next_case-Explores rest at links visited o goes_on (closed {v} c) =
      cons-Explores at links visited v (rest v) c (goes_on v c)

  -- After a case the calls still do what they must.
  Goes-after :
      (go : ℕ → List ℕ → Answer) (at : ℕ) (visited v : List ℕ)
      → Goes go visited
      → Closed (successors blocks) target (some at ∷ []) visited v
      → Goes go v
  Goes-after go at visited v goes c k u h sub = goes k u h (λ x e. sub x (c.kept x e))

  from_cases-Explores :
      (go : ℕ → List ℕ → Answer) (params : BranchParams) (cases : List BranchCase)
      (visited : List ℕ)
      → Goes go visited
      → LinksIn (length blocks) (case_links cases params.has_else params.else_next)
      → Explores
          (successors blocks)
          target
          (case_links cases params.has_else params.else_next)
          visited
          (from_cases go params cases visited)
  unfolding from_cases
  from_cases-Explores go params [] visited goes ok_links = elim (Bool-cases params.has_else) [
    | inl e ↦ rw e (follow-Explores go visited params.else_next goes (rw e at ok_links))
    | inr e ↦ rw e (closed (Closed-none (successors blocks) target visited))
  ]
  from_cases-Explores go params (c ∷ cases) visited goes ok_links =
      split c.next (from_cases-Explores go params cases) goes ok_links
    where
      split :
          (link : Option ℕ)
          → ((v : List ℕ)
              → Goes go v
              → LinksIn (length blocks) (case_links cases params.has_else params.else_next)
              → Explores
                  (successors blocks)
                  target
                  (case_links cases params.has_else params.else_next)
                  v
                  (from_cases go params cases v))
          → Goes go visited
          → LinksIn (length blocks) (link ∷ case_links cases params.has_else params.else_next)
          → Explores
              (successors blocks)
              target
              (link ∷ case_links cases params.has_else params.else_next)
              visited
              (next_case (from_cases go params cases) (follow go visited link))
      split none ih g l = absurd l
      split (some at) ih g (lt, l) =
          next_case-Explores (from_cases go params cases) at
            (case_links cases params.has_else params.else_next) visited (go at visited)
            (λ v closed_v. ih v (Goes-after go at visited v g closed_v) l)
            (g at visited lt (λ x h. h))

  from_block-Explores :
      (go : ℕ → List ℕ → Answer) (visited : List ℕ) (block : BlockDesc)
      → Goes go visited
      → LinksIn (length blocks) (passes_to block.params)
      → Explores
          (successors blocks)
          target
          (passes_to block.params)
          visited
          (from_params go visited block.params)
  unfolding from_params
  from_block-Explores go visited block goes ok_links = by_kind block.params ok_links
    where
      by_kind :
          (params : BlockParams)
          → LinksIn (length blocks) (passes_to params)
          → Explores
              (successors blocks)
              target
              (passes_to params)
              visited
              (from_params go visited params)
      by_kind (assign p) l = follow-Explores go visited p.next goes l
      by_kind (branch p) l = from_cases-Explores go p p.cases visited goes l
      by_kind (create p) l = closed (Closed-none (successors blocks) target visited)
      by_kind (queue p) l = closed (Closed-none (successors blocks) target visited)
      by_kind (delay p) l = closed (Closed-none (successors blocks) target visited)
      by_kind (seize p) l = closed (Closed-none (successors blocks) target visited)
      by_kind (release p) l = closed (Closed-none (successors blocks) target visited)
      by_kind terminate l = closed (Closed-none (successors blocks) target visited)

  node-Explores :
      (current : ℕ) (visited : List ℕ) (o : Answer)
      → (current == target) ≡ false
      → Explores (successors blocks) target (successors blocks current) (current ∷ visited) o
      → Explores (successors blocks) target (some current ∷ []) visited o
  node-Explores current visited o away (found j l way) =
      found current (ground (arith, beq_refl current)) (step current j target l way)
  node-Explores current visited o away (closed {v} c) =
      closed (Closed-node (successors blocks) target current visited v away c)

  can_reach_from-Explores :
      IsPassable blocks
      → (fuel current : ℕ) (visited : List ℕ) → current < length blocks
      → unseen (length blocks) visited < fuel
      → Explores
          (successors blocks)
          target
          (some current ∷ [])
          visited
          (can_reach_from fuel blocks target current visited)
  unfolding can_reach_from
  can_reach_from-Explores passable zero current visited lt enough = absurd (omega arith)
  can_reach_from-Explores passable (suc fuel) current visited lt enough =
      elim (Bool-cases (current == target)) [
        | inl e ↦ rw e (
            found current (ground (arith, beq_refl current))
              (subst (λ k. Leads (successors blocks) current k) ((eq_iff current target).0 e) here))
        | inr e ↦ rw e (elim (Bool-cases (contains current visited)) [
          | inl old ↦
              rw old (closed (Closed-visited (successors blocks) target current visited old))
          | inr new ↦ rw new (
              let (block, at) = get_elem?-found blocks current lt in
              let goes : Goes (can_reach_from fuel blocks target) (current ∷ visited) = λ k u h sub.
                can_reach_from-Explores passable fuel k u h (
                  omega (
                    arith,
                    unseen-le (length blocks) (current ∷ visited) u sub,
                    unseen-cons (length blocks) current visited lt new,
                    enough,
                  )) in
              node-Explores current visited _ e (
                rw at (
                  from_block-Explores (can_reach_from fuel blocks target) (current ∷ visited) block
                    goes (rw at at (passable current)))))
        ])
      ]

-- The search returns, and its answer is whether a way leads from `next` to the target.
pub record Decides (blocks : List BlockDesc) (target next : ℕ) (o : Answer) : Type 0 where
  pub reached : Bool
  pub visited : List ℕ
  pub result : o ≡ some (reached, visited)
  pub sound : reached ≡ true → Leads (successors blocks) next target
  pub complete : Leads (successors blocks) next target → reached ≡ true

Explores-Decides :
    (blocks : List BlockDesc) (target next : ℕ) (o : Answer)
    → Explores (successors blocks) target (some next ∷ []) [] o
    → Decides blocks target next o
Explores-Decides blocks target next o (found {v} j l way) = record {
  reached = true;
  visited = v;
  result = refl;
  sound = λ _.
      subst (λ k. Leads (successors blocks) k target) (sym ((eq_iff next j).0 (ground (arith, l))))
        way;
  complete = λ _. refl;
}
Explores-Decides blocks target next o (closed {v} c) = record {
  reached = false;
  visited = v;
  result = refl;
  sound = λ h. cc;
  complete = λ way. absurd (Closed-no_way (successors blocks) target next v c way);
}

-- If every pointer of an ASSIGN or BRANCH block is set, canReachWaitTarget returns, and true exactly if
-- a way through ASSIGN and BRANCH blocks leads from the next block of the queue to the target, loops
-- between the blocks or not.
pub can_reach-Decides :
    (blocks : List BlockDesc) (queue_at target next : ℕ)
    → IsPassable blocks
    → queue_next (get_elem? blocks queue_at) ≡ some next
    → next < length blocks
    → Decides blocks target next (can_reach blocks queue_at target)
unfolding can_reach
can_reach-Decides blocks queue_at target next passable starts lt = rw starts (
    Explores-Decides blocks target next _ (
      can_reach_from-Explores blocks target passable (suc (length blocks)) next [] lt
        (omega (arith, unseen_bound (length blocks) []))))
