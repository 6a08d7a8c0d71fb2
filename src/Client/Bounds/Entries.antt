-- ===== src/Client/Bounds/Entries.antt =====
-- The bounds of a session under the operations on its maps.
use lite_mqtt.Prelude.{ℕ, ◌<◌, ◌≡◌, some, List, [], arith, length}
use lite_mqtt.Client.Maps.{find, insert, erase, update, length-insert, length-erase, length-update}
use lite_mqtt.Client.{PendingPublish, PendingPubrec, PendingSubscribe}
use lite_mqtt.Client.Ids.Search.{IsId}
use lite_mqtt.Client.Sending.{max_pending_publishes}
use lite_mqtt.Client.Bounds.{
  SoundPublish, SoundPubrec, SoundSubscribe, Sound, All-insert, All-erase, All-update,
}

-- The operations on the pending maps.
module _ {next : ℕ} {ps : List (ℕ × PendingPublish)} {rs : List (ℕ × PendingPubrec)}
    {ss : List (ℕ × PendingSubscribe)} where
  pub erase_publish-Sound : (id : ℕ) → Sound next ps rs ss → Sound next (erase id ps) rs ss
  erase_publish-Sound id o = record {
    next_valid = o.next_valid;
    few = omega (arith, o.few, length-erase id ps);
    sound_publishes = All-erase SoundPublish id ps o.sound_publishes;
    sound_pubrecs = o.sound_pubrecs;
    sound_subscribes = o.sound_subscribes;
  }

  pub erase_pubrec-Sound : (id : ℕ) → Sound next ps rs ss → Sound next ps (erase id rs) ss
  erase_pubrec-Sound id o = record {
    next_valid = o.next_valid;
    few = o.few;
    sound_publishes = o.sound_publishes;
    sound_pubrecs = All-erase SoundPubrec id rs o.sound_pubrecs;
    sound_subscribes = o.sound_subscribes;
  }

  pub erase_subscribe-Sound : (id : ℕ) → Sound next ps rs ss → Sound next ps rs (erase id ss)
  erase_subscribe-Sound id o = record {
    next_valid = o.next_valid;
    few = o.few;
    sound_publishes = o.sound_publishes;
    sound_pubrecs = o.sound_pubrecs;
    sound_subscribes = All-erase SoundSubscribe id ss o.sound_subscribes;
  }

  pub update_publish-Sound :
      (id : ℕ) (f : PendingPublish → PendingPublish)
      → ((e : PendingPublish) → find id ps ≡ some e → SoundPublish id e → SoundPublish id (f e))
      → Sound next ps rs ss
      → Sound next (update id f ps) rs ss
  update_publish-Sound id f h o = record {
    next_valid = o.next_valid;
    few = omega (arith, o.few, length-update id f ps);
    sound_publishes = All-update SoundPublish id f ps h o.sound_publishes;
    sound_pubrecs = o.sound_pubrecs;
    sound_subscribes = o.sound_subscribes;
  }

  pub update_pubrec-Sound :
      (id : ℕ) (f : PendingPubrec → PendingPubrec)
      → ((e : PendingPubrec) → find id rs ≡ some e → SoundPubrec id e → SoundPubrec id (f e))
      → Sound next ps rs ss
      → Sound next ps (update id f rs) ss
  update_pubrec-Sound id f h o = record {
    next_valid = o.next_valid;
    few = o.few;
    sound_publishes = o.sound_publishes;
    sound_pubrecs = All-update SoundPubrec id f rs h o.sound_pubrecs;
    sound_subscribes = o.sound_subscribes;
  }

  -- With the maps cleared.
  pub cleared-Sound : Sound next ps rs ss → Sound next [] [] []
  cleared-Sound o = record {
    next_valid = o.next_valid;
    few = omega arith;
    sound_publishes = tt;
    sound_pubrecs = tt;
    sound_subscribes = tt;
  }

  pub insert_publish-Sound :
      (id : ℕ) (e : PendingPublish)
      → SoundPublish id e
      → length ps < max_pending_publishes
      → Sound next ps rs ss
      → Sound next (insert id e ps) rs ss
  insert_publish-Sound id e p room o = record {
    next_valid = o.next_valid;
    few = omega (arith, room, length-insert id e ps);
    sound_publishes = All-insert SoundPublish id e ps p o.sound_publishes;
    sound_pubrecs = o.sound_pubrecs;
    sound_subscribes = o.sound_subscribes;
  }

  pub insert_pubrec-Sound :
      (id : ℕ) (e : PendingPubrec)
      → SoundPubrec id e
      → Sound next ps rs ss
      → Sound next ps (insert id e rs) ss
  insert_pubrec-Sound id e p o = record {
    next_valid = o.next_valid;
    few = o.few;
    sound_publishes = o.sound_publishes;
    sound_pubrecs = All-insert SoundPubrec id e rs p o.sound_pubrecs;
    sound_subscribes = o.sound_subscribes;
  }

  pub insert_subscribe-Sound :
      (id : ℕ) (e : PendingSubscribe)
      → SoundSubscribe id e
      → Sound next ps rs ss
      → Sound next ps rs (insert id e ss)
  insert_subscribe-Sound id e p o = record {
    next_valid = o.next_valid;
    few = o.few;
    sound_publishes = o.sound_publishes;
    sound_pubrecs = o.sound_pubrecs;
    sound_subscribes = All-insert SoundSubscribe id e ss p o.sound_subscribes;
  }

  pub next_id-Sound : (n : ℕ) → IsId n → Sound next ps rs ss → Sound n ps rs ss
  next_id-Sound n h o = record {
    next_valid = h;
    few = o.few;
    sound_publishes = o.sound_publishes;
    sound_pubrecs = o.sound_pubrecs;
    sound_subscribes = o.sound_subscribes;
  }
