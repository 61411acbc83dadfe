-- ===== src/Handlers/Messages/Enrich.antt =====
-- handlers/messages.rs, `enrich`: authors, attachments and grouped reactions for a list of messages.
use rsmc_engine.Base.{
  ℕ, ◌+◌, Bool, false, Option, none, some, List, [], ◌∷◌, ◌++◌, ◌==◌, ltb, if◌then◌else◌, map, text,
  text_eq, select, any, order_by, HashMap, lookup, insert, remove,
}
use rsmc_engine.Error.{internal}
use rsmc_engine.Models.{
  Message, MessageView, User, UserPublic, to_public, UserRole, Attachment, MessageAttachment,
  Reaction, ReactionGroup,
}
use rsmc_engine.Db.{Db}
use rsmc_engine.App.{M, pure, fail, ◌>>=◌, now, query}

-- `= ANY($1)`
abbrev pub among : List ℕ → ℕ → Bool
among ids i = any (λ j. j == i) ids

abbrev pub or_default {ℓ} : {A : Type ℓ} → Option (List A) → List A
or_default none = []
or_default (some xs) = xs

-- `authors.into_iter().map(|u| (u.id, u.to_public())).collect()`
author_map : List User → HashMap UserPublic → HashMap UserPublic
author_map [] m = m
author_map (u ∷ us) m = author_map us (insert u.id (to_public u) m)

attachments_of : Db → MessageAttachment → List (ℕ × Attachment)
attachments_of d l =
    map (λ a. (l.message_id, a)) (select (λ a. a.id == l.attachment_id) d.attachments)

-- JOIN attachments a ON a.id = ma.attachment_id
join_attachments : Db → List MessageAttachment → List (ℕ × Attachment)
unfolding attachments_of
join_attachments d [] = []
join_attachments d (l ∷ ls) = attachments_of d l ++ join_attachments d ls

att_map : List (ℕ × Attachment) → HashMap (List Attachment) → HashMap (List Attachment)
att_map [] m = m
att_map ((i, a) ∷ rest) m = att_map rest (insert i (or_default (lookup i m) ++ a ∷ []) m)

-- One reaction joins the group of its emoji, or opens one at the end.
unfoldable pub group : Reaction → List ReactionGroup → List ReactionGroup
group r [] = record { emoji = r.emoji; count = 1; user_ids = r.user_id ∷ [] } ∷ []
group r (g ∷ gs) =
    if text_eq g.emoji r.emoji
    then record g { count = g.count + 1; user_ids = g.user_ids ++ r.user_id ∷ [] } ∷ gs
    else g ∷ group r gs

unfoldable pub react_map :
    List Reaction → HashMap (List ReactionGroup) → HashMap (List ReactionGroup)
unfolding group
react_map [] m = m
react_map (r ∷ rs) m =
    react_map rs (insert r.message_id (group r (or_default (lookup r.message_id m))) m)

placeholder_user : (id created_at : ℕ) → UserPublic
placeholder_user id created_at = record {
  id = id;
  email = [];
  username = text "unknown";
  display_name = text "Unknown User";
  role = UserRole.member;
  avatar_url = none;
  is_active = false;
  created_at = created_at;
}

unfoldable pub author_or : ℕ → Option UserPublic → M UserPublic
unfolding placeholder_user
author_or id (some u) = pure u
author_or id none = do at ← now; pure (placeholder_user id at)

unfoldable pub views :
    HashMap UserPublic
    → HashMap (List Attachment)
    → HashMap (List ReactionGroup)
    → List Message
    → M (List MessageView)
unfolding author_or
views authors atts reacts [] = pure []
views authors atts reacts (m ∷ ms) = do
  author ← author_or m.user_id (lookup m.user_id authors)
  rest ← views authors (remove m.id atts) (remove m.id reacts) ms
  pure (
      record {
        message = m;
        author = author;
        attachments = or_default (lookup m.id atts);
        reactions = or_default (lookup m.id reacts);
      }
      ∷ rest)

unfoldable pub enrich_all : List Message → M (List MessageView)
unfolding author_map join_attachments att_map react_map views
enrich_all messages = do
  let ids : List ℕ = map (λ m. m.id) messages
  authors ← query (λ d. select (λ u. among (map (λ m. m.user_id) messages) u.id) d.users)
  atts ←
      query (λ d. join_attachments d (select (λ l. among ids l.message_id) d.message_attachments))
  reacts ← query (λ d.
      order_by (λ a b. ltb a.created_at b.created_at)
        (select (λ r. among ids r.message_id) d.reactions))
  views (author_map authors []) (att_map atts []) (react_map reacts []) messages

unfoldable pub enrich : List Message → M (List MessageView)
unfolding enrich_all
enrich [] = pure []
enrich (m ∷ ms) = enrich_all (m ∷ ms)

-- `enrich(state, vec![message])`, of whose result the first view is taken: there is one.
unfoldable pub one : List MessageView → M MessageView
one [] = fail (internal "one message")
one (v ∷ vs) = pure v

unfoldable pub enrich_one : Message → M MessageView
unfolding enrich one
enrich_one message = do found ← enrich (message ∷ []); one found
