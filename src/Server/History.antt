-- ===== src/Server/History.antt =====
-- handlers/messages.rs, `history`: what a member is answered, and that it counts as read.
use rsmc_engine.Base.{
  ℕ, zero, suc, sym, ◌≤◌, ◌<◌, ◌≡◌, refl, ◌∙◌, ap, ◌⊎◌, inl, inr, Bool-cases, Option, none, some,
  List, [], ◌∷◌, ◌++◌, map, take, length-take-le, length, ◌==◌, arith, All,
}
use rsmc_engine.Base.Int.{pos}
use rsmc_engine.Models.{
  Message, MessageView, MemberRole, HistoryQuery, HistoryResponse, clamped_limit,
}
use rsmc_engine.Db.{Db}
use rsmc_engine.App.{
  Env, World, NoFaults, Ended, Works, bind-Works, query-Works, execute-Works, pure-Works,
  frame-Works, Gives-Works, now,
}
use rsmc_engine.Services.Access.{AuthUser, member_role}
use rsmc_engine.Handlers.Messages.Store.{mark_channel_read}
use rsmc_engine.Handlers.Messages.Threads.{AreDistinct}
use rsmc_engine.Handlers.Messages.Pages.{timeline, page-after, split, take_all}
use rsmc_engine.Handlers.Messages.{page, id_of, cursor_after, history}
use rsmc_engine.Invariant.Shared.{enrich-Keeps}
use rsmc_engine.Server.Rollback.{enrich-Gives}
use rsmc_engine.Server.Storing.{At, require_member-Works}
use rsmc_engine.Server.Cursor.{AllRead, update-AllRead}

-- What stands in the channel's timeline after a cursor: all of it, or what follows its message.
abbrev pub Follow : (channel_id : ℕ) → Db → (cursor : Option ℕ) → List Message → Type 0
Follow c d none ys = timeline c d ≡ ys
Follow c d (some k) ys =
    (xs : List Message) × (m : Message) × (m.id ≡ k) × (timeline c d ≡ xs ++ m ∷ ys)

-- Everything, with no cursor, when it is less than the limit; or as many as the limit, with the last
-- one as the next cursor.
abbrev pub IsPage : (limit : ℕ) → (ys shown : List Message) → (next : Option ℕ) → Type 0
IsPage l ys ms next =
    ((length ys < l) × (ms ≡ ys) × (next ≡ none))
    ⊎ ((before : List Message) × (end : Message) × (rest : List Message) × (ys
          ≡ before ++ end ∷ rest)
        × (ms ≡ before ++ end ∷ [])
        × (length ms ≡ l)
        × (next ≡ some end.id))

page-Follow :
    (c l : ℕ) (d : Db) (cursor : Option ℕ) (ys : List Message)
    → AreDistinct d.messages
    → Follow c d cursor ys
    → page c cursor l d ≡ take l ys
unfolding page
page-Follow c l d none ys distinct e = ap (take l) e
page-Follow c l d (some k) ys distinct (xs, m, same, e) =
    ap (λ i. page c (some i) l d) (sym same) ∙ page-after c d distinct l xs m ys e

take-IsPage :
    (l : ℕ) (ys : List Message) → 1 ≤ l → IsPage l ys (take l ys) (cursor_after (take l ys) l)
unfolding cursor_after
take-IsPage zero ys low = absurd (omega (arith, low))
take-IsPage (suc n) ys low = elim (Bool-cases (length (take (suc n) ys) == suc n)) [
  | inl full ↦
      let s = split n ys full in
      rw full (
        inr
          (s.before, s.end, s.rest, s.all_is, s.page_is, ground (arith, full), ap id_of s.last_is))
  | inr short ↦
      let all = take_all (suc n) ys short in
      rw short (inl (ground (arith, short, length-take-le (suc n) ys, ap length all), all, refl))
]

-- A limit in range is taken as it is.
clamped : (q : HistoryQuery) (l : ℕ) → q.limit ≡ pos l → 1 ≤ l → l ≤ 200 → clamped_limit q ≡ l
unfolding clamped_limit
clamped q l e low high = rw e (ground (arith, low, high))

abbrev pub Shown : (limit : ℕ) → List Message → HistoryResponse → Type 0
Shown l ys h = IsPage l ys (map (λ v. v.message) h.messages) h.next_cursor

-- When no statement is lost, message ids are unique and no message is from the future, a member who
-- asks for at most `l` messages, from 1 to 200, with or without a cursor, is answered the messages
-- that follow the cursor in the channel's timeline: all of them and no cursor if they are fewer than
-- `l`, or else the first `l` and the last of these as the next cursor. Afterwards none of the channel's
-- messages counts as unread for the member. The query's `after` plays no part.
pub history-Shown :
    (user : AuthUser) (c : ℕ) (q : HistoryQuery) (l : ℕ) (ys : List Message) (e : Env) (w0 : World)
    (r : MemberRole)
    → NoFaults e
    → AreDistinct w0.db.messages
    → member_role c user.id w0.db ≡ some r
    → q.limit ≡ pos l
    → 1 ≤ l
    → l ≤ 200
    → Follow c w0.db q.before ys
    → All (λ (x : Message). x.created_at ≤ e.clock w0.ticks) w0.db.messages
    → Ended
        (λ h w. Shown l ys h × AllRead c user.id w.db.messages w.db.channel_members)
        (history user c q e w0)
unfolding history now mark_channel_read
history-Shown user c q l ys e w0 r faultless distinct member lim low high follow past =
    answering.run w0 (refl, refl, refl)
  where
    rows : List Message
    rows = take l ys

    Read : Db → Type 0
    Read d = AllRead c user.id d.messages d.channel_members

    limit_is : clamped_limit q ≡ l
    limit_is = clamped q l lim low high

    found : page c q.before (clamped_limit q) w0.db ≡ rows
    found =
        ap (λ n. page c q.before n w0.db) limit_is
        ∙ page-Follow c l w0.db q.before ys distinct follow

    answered :
        (ms : List Message) (vs : List MessageView)
        → ms ≡ rows
        → map (λ v. v.message) vs ≡ ms
        → IsPage l ys (map (λ v. v.message) vs) (cursor_after ms (clamped_limit q))
    answered ms vs same shown = rw (shown, limit_is, same) (take-IsPage l ys low)

    answering :
        Works e
          (At w0)
          (history user c q)
          (λ h w. Shown l ys h × AllRead c user.id w.db.messages w.db.channel_members)
    answering =
        bind-Works e faultless (λ _. At w0) (require_member-Works e faultless w0 c user.id r member)
          λ _.
            bind-Works e faultless (λ ms w. At w0 w × (ms ≡ rows))
              (query-Works e faultless (page c q.before (clamped_limit q)) rows
                (λ w p. (ap (page c q.before (clamped_limit q)) p.0 ∙ found, p)))
              λ ms.
                bind-Works e faultless
                  (λ t w. (t ≡ e.clock w0.ticks) × ((w.db ≡ w0.db) × (ms ≡ rows)))
                  (record { run = λ w p. (ap e.clock p.0.2, (p.0.0, p.1)) })
                  λ t.
                    bind-Works e faultless (λ _ w. (ms ≡ rows) × Read w.db)
                      (execute-Works e faultless (mark_channel_read c user.id t) tt _ (λ w p. (
                        refl,
                        (
                          p.1.1,
                          update-AllRead c user.id t w.db.messages w.db.channel_members
                              (rw (p.0, p.1.0) past),
                        ),
                      )))
                      λ _.
                        bind-Works e faultless
                          (λ vs w. (ms ≡ rows) × ((map (λ v. v.message) vs ≡ ms) × Read w.db))
                          (frame-Works e faultless
                            (Gives-Works e faultless (enrich-Gives ms) (enrich-Keeps ms)))
                          λ vs. pure-Works e faultless _ (λ w p. (answered ms vs p.0 p.1.0, p.1.1))
