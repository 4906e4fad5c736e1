-- ===== src/Kuznyechik/Tables/It5.antt =====
-- internal/kuznyechik/tables.go: `it[5]`, 256 entries of two words.
use kubebao.Common.{ℕ, List, [], ◌∷◌}

unfoldable pub it_row5 : List (ℕ × ℕ)
it_row5 =
    (0xaf9c5ba61820cad8, 0x8c3b858c801dd978)
    ∷ (0x186806c54c511069, 0xa1f57ca187b731bf)
    ∷ (0xb8cd2eb09a1bd0c0, 0x210329216cdfbeb7)
    ∷ (0x61d989a2abe6ffba, 0xaa6069aa1edca142)
    ∷ (0x6f5a6b413ded4a16, 0xcd9fe3cd32ec92c9)
    ∷ (0xecd33bab52790987, 0x0eb0490e273c4fd9)
    ∷ (0x7fab6fc7f432eb58, 0xb2390ab2c8360da2)
    ∷ (0x36caece98b272459, 0x3885e7389cf0ffe2)
    ∷ (0x5f8a6708a54f6ac4, 0x4cb61b4cff41f074)
    ∷ (0xc3cb40b7cd6e826a, 0xfcf288fc7b3ee47f)
    ∷ (0xae26ca9640417505, 0xe709dfe7c758bc83)
    ∷ (0x55a4842b9003669a, 0x44813a440ca69495)
    ∷ (0x75858ce4c17ee706, 0xba0e2bba3bd16943)
    ∷ (0x91cfb50c16895fa6, 0x6aedf76a6180884e)
    ∷ (0xa3a858253ee9c20d, 0x3da0bb3d22a720c6)
    ∷ (0xeb734a3b199db2d1, 0xdc2e0cdc3124b77d)
    ∷ (0xb3595ca3f7366343, 0x42065242d87dbfad)
    ∷ (0x7e11fef7ac535485, 0xd90b50d98f736859)
    ∷ (0x219b99ff091c3e41, 0x95bd4b957032982d)
    ∷ (0x30d00c4998a220d2, 0x8129f881cdad62bd)
    ∷ (0xdeb4d6827a19942c, 0x59fd0559641be751)
    ∷ (0x1b657695a4f212cd, 0x1ca3921c4e789e71)
    ∷ (0xd62dd4c1ff97250b, 0x87ae908719764985)
    ∷ (0x7688fcb429dde5a2, 0x0758c507f21ec68d)
    ∷ (0x232c789fb9de8338, 0x43d9ff43feb85218)
    ∷ (0xaa8bcb56e306ccf7, 0x88c17488188febe9)
    ∷ (0xbed7ce10899ed44b, 0x98af36983d8223e8)
    ∷ (0xf935afdd6080aee6, 0x75ec51754574e223)
    ∷ (0xb0542cf31f9561e7, 0xff50bcff11b21063)
    ∷ (0xcae8d3c410818c90, 0x4993474941162f50)
    ∷ (0x8593b04a7c11471a, 0x7a83b57a448d404f)
    ∷ (0xa986bb060ba5ce53, 0x35979a35d1404427)
    ∷ (0x3fe97f9a56c82aa3, 0x8de4288da6d834cd)
    ∷ (0xdf0e47b222782bf1, 0x32cf5f32235e82aa)
    ∷ (0x35c79cb9638426fd, 0x85d30985553f502c)
    ∷ (0x3b447e5af58f9351, 0xe22c83e2790f63a7)
    ∷ (0x70921c143a58e129, 0xbef4dabea3435bd2)
    ∷ (0xf88f3eed38e1113b, 0x1ede0b1e023187d8)
    ∷ (0x42f5f13d12387c82, 0xe9b996e9e064f35a)
    ∷ (0x60631892f3874067, 0xc15233c15999c4b9)
    ∷ (0x061ae0a01385048b, 0xb9ac1fb9515d9d5f)
    ∷ (0x6574886208a14648, 0xc5a8c2c5c10bf628)
    ∷ (0xab315a66bb67732a, 0xe3f32ee35fca8e12)
    ∷ (0xbddabe40613dd6ef, 0x25f9d825f44d8c26)
    ∷ (0x4658f0fdb17fc570, 0x86713d863fb3a430)
    ∷ (0x97d555ac050c5b2d, 0xd341e8d330dd1511)
    ∷ (0x67c36902b863fb31, 0x13cc76134f813c1d)
    ∷ (0x1e72e6655fd414e2, 0x18596318d6eaace0)
    ∷ (0xa5b2b8852d6cc686, 0x840ca48473fabd99)
    ∷ (0xfc223f2d9ba6a8c9, 0x7116a071dde6d0b2)
    ∷ (0xfe95de4d2b6415b0, 0xa77214a7536c1a87)
    ∷ (0xd0373461ec122180, 0x3e028f3e482bd4da)
    ∷ (0x38490e0a1d2c91f5, 0x5f7a6d5fb0c0cc69)
    ∷ (0x7ca61f971c91e9fc, 0x0f6fe40f01f9a26c)
    ∷ (0x5c8717584dec6860, 0xf1e0f5f1368e5fba)
    ∷ (0x8fbd5369495d4b44, 0x72b49472b76a24ae)
    ∷ (0xeac9db0b41fc0d0c, 0xb71c56b77661d286)
    ∷ (0xe15da9182cd1be8f, 0xd4192dd4c2c3d39c)
    ∷ (0x030d7050e8a302a4, 0xbd56eebdc9cfafce)
    ∷ (0x8d0ab209f99ff63d, 0xa4d020a439e0ee9b)
    ∷ (0xce45d204b3c63562, 0x265bec269ec1783a)
    ∷ (0x808420ba87374135, 0x7e79447edc1f72de)
    ∷ (0x8cb02339a1fe49e0, 0xcfe27acf7ea58b60)
    ∷ (0x510985eb3344df68, 0x2b49912bd371c3ff)
    ∷ (0x48db121e277470dc, 0xe18eb7e1138397bb)
    ∷ (0x68fa1ad17609f140, 0x1f01a61f24f46a6d)
    ∷ (0xe44a39e8d7f7b8a0, 0xd0e3dcd05a51e10d)
    ∷ (0xd8ae3622699c90a7, 0xe0511ae035467a0e)
    ∷ (0xfb824ebdd042139f, 0xa388e5a3cbfe2816)
    ∷ (0xe250d948c472bc2b, 0x694fc3690b0c7c52)
    ∷ (0x9c4127bf6821e8ae, 0xb04493b0847f140b)
    ∷ (0x1adfe7a5fc93ad10, 0x7791c877093dfb8a)
    ∷ (0xee64dacbe2bbb4fe, 0xd8d4fdd8a9b685ec)
    ∷ (0xad2bbac6a8e277a1, 0x5a5f315a0e97134d)
    ∷ (0x8429217a2470f8c7, 0x11b1ef1103c825b4)
    ∷ (0xcb5242f448e0334d, 0x22a11d2206534aab)
    ∷ (0x7b066e07577552aa, 0xddf1a1dd17e15ac8)
    ∷ (0x455580ad59dcc7d4, 0x3b27d33bf67c0bfe)
    ∷ (0xfa38df8d8823ac42, 0xc8babfc88cbb4ded)
    ∷ (0x4c7613de8433c92e, 0x8e461c8ecc54c0d1)
    ∷ (0x2c150b4c77b48949, 0x4f142f4f95cd0468)
    ∷ (0x6c571b11d54e48b2, 0x70c90d70fb233d07)
    ∷ (0x7abcff370f14ed77, 0xb6c3fbb650a43f33)
    ∷ (0x6a4dfbb1c6cb4c39, 0xc96512c9aa7ea058)
    ∷ (0x47e261cde91e7aad, 0xed4367ed78f6c1cb)
    ∷ (0x347d0d893be59920, 0xeee153ee127a35d7)
    ∷ (0x89a7b3c95ad84fcf, 0xcb188bcbe637b9f1)
    ∷ (0xbbc05ee072b8d264, 0x9c55c79ca5101179)
    ∷ (0x1cc50705ef16a99b, 0xce3dd7ce586066d5)
    ∷ (0xda19d742d95e2dde, 0x3635ae36bbccb03b)
    ∷ (0x77326d8471bc5a7f, 0x6c6a9f6cb55ba376)
    ∷ (0xe9c4ab5ba95f0fa8, 0x0a4ab80abfae7d48)
    ∷ (0x8b1052a9ea1af2b6, 0x1d7c3f1d68bd73c4)
    ∷ (0x98ec267fcb66515c, 0xdf8c38df5ba84361)
    ∷ (0x4a6cf37e97b6cda5, 0x37ea03379d095d8e)
    ∷ (0x8aaac399b27b4d6b, 0x764e65762ff8163f)
    ∷ (0x79b18f67e7b7efd3, 0x0b95150b996b90fd)
    ∷ (0x966fc49c5d6de4f0, 0xb873b2b8779870ea)
    ∷ (0xd18da551b4739e5d, 0x5530d5550f6eb121)
    ∷ (0xb543bc03e4b367c8, 0xfbaa4dfb892022f2)
    ∷ (0x16ebe426da5aa5c5, 0xc60af6c6ab870234)
    ∷ (0x5d3d8668158dd7bd, 0x9ad2af9a71cb3a41)
    ∷ (0x636e68c21b2442c3, 0x7c04dd7c90566b77)
    ∷ (0x6bf76a819eaaf3e4, 0xa25748a2ed3bc5a3)
    ∷ (0xd520a491173427af, 0x3af87e3ad0b9e64b)
    ∷ (0xf31b4cfe55cca2b8, 0x7ddb707db69386c2)
    ∷ (0x6ee0fa71658cf5cb, 0xa6adb9a675a9f732)
    ∷ (0xf1acad9ee50e1fc1, 0xabbfc4ab38194cf7)
    ∷ (0x50b314db6b2560b5, 0x407bcb409434a604)
    ∷ (0x6ded8a218d2ff76f, 0x1bfb571bbc6658fc)
    ∷ (0x8233c1da37f5fc4c, 0xa81df0a85295b8eb)
    ∷ (0xf60cdc0eaeeaa497, 0x792181792e01b453)
    ∷ (0xddb9a6d292ba9688, 0xe4abebe4add4489f)
    ∷ (0x15e6947632f9a761, 0x7b5c187b6248adfa)
    ∷ (0x4ec1f2be34f17457, 0x5822a85842de0ae4)
    ∷ (0x53be648b83866211, 0xfd2d25fd5dfb09ca)
    ∷ (0x8e07c259113cf499, 0x1986ce19f02f4155)
    ∷ (0xd49a35a14f559872, 0x51ca245197fc83b0)
    ∷ (0x0b9472136d2db383, 0x63057b63b4a2011a)
    ∷ (0xcfff4334eba78abf, 0x4d69b64dd9841dc1)
    ∷ (0xdc0337e2cadb2955, 0x8f99b18fea912d64)
    ∷ (0x9dfbb68f30405773, 0xdb76c9dbc33a71f0)
    ∷ (0x69408be12e684e9d, 0x7433fc7463b10f96)
    ∷ (0x9956b74f9307ee81, 0xb4be62b41ced269a)
    ∷ (0x1fc8775507b5ab3f, 0x736b397391afc91b)
    ∷ (0x2536983faa5b87b3, 0xfa75e0faafe5cf47)
    ∷ (0x28b80a8cd4f330bb, 0x20dc84204a1a5302)
    ∷ (0xd79745f1a7f69ad6, 0xec9ccaec5e332c7e)
    ∷ (0x13fc74d6217ca3ea, 0xc2f007c2331530a5)
    ∷ (0x9a5bc71f7ba4ec25, 0x09e88c09d5228954)
    ∷ (0xc0c630e725cd80ce, 0x41a46641b2f14bb1)
    ∷ (0x8724512accd3fa63, 0xace701acca078a7a)
    ∷ (0xc6dcd04736488445, 0xf80879f8e3acd6ee)
    ∷ (0xbc602f70395c6932, 0x4ecb824eb308e9dd)
    ∷ (0x9ef6c6dfd8e355d7, 0x662027660af5de3e)
    ∷ (0xb2e3cd93af57dc9e, 0x293408299f38da56)
    ∷ (0x0d8e92b37ea8b708, 0xdaa964dae5ff9c45)
    ∷ (0x739f6c44d2fbe38d, 0x03a234036a8cf41c)
    ∷ (0x02b7e160b0c2bd79, 0xd664b4d68e8aca35)
    ∷ (0x3267ed2928609dab, 0x574d4c574327a888)
    ∷ (0x5b2766c80608d336, 0x237eb0232096a71e)
    ∷ (0x4042105da2fac1fb, 0x3fdd223f6eee396f)
    ∷ (0x6679f832e00244ec, 0x78fe2c7808c459e6)
    ∷ (0x10f10486c9dfa14e, 0x7fa6e97ffada9f6b)
    ∷ (0x3e53eeaa0ea9957e, 0xe6d672e6e19d5136)
    ∷ (0xa212c91566887dd0, 0x5692e15665e2453d)
    ∷ (0xb64ecc530c10656c, 0x46fca34640ef8d3c)
    ∷ (0x4dcc82eedc5276f3, 0xe57446e58b11a52a)
    ∷ (0x434f600d4a59c35f, 0x828bcc82a72196a1)
    ∷ (0xa70559e59dae7bff, 0x52681052fd7077ac)
    ∷ (0x4f7b638e6c90cb8a, 0x3310f233059b6f1f)
    ∷ (0x07a071904be4bb56, 0xd29e45d21618f8a4)
    ∷ (0x01ba91305861bfdd, 0x6b325a6b474565fb)
    ∷ (0x19d297f51430afb4, 0xcac726cac0f25444)
    ∷ (0xe74749b83f54ba04, 0x6db5326d939e4ec3)
    ∷ (0x869ec01a94b245be, 0xc7d55bc78d42ef81)
    ∷ (0xccf233640304881b, 0xf03f58f0104bb20f)
    ∷ (0x202108cf517d819c, 0xfe8f11fe3777fdd6)
    ∷ (0x0a2ee323354c0c5e, 0x08372108f3e764e1)
    ∷ (0x3ce40fcabe6b2807, 0x30b2c6306f179b03)
    ∷ (0x3afeef6aadee2c8c, 0x891ed9893e4a065c)
    ∷ (0x316a9d79c0c39f0f, 0xea1ba2ea8ae80746)
    ∷ (0xff2f4f7d7305aa6d, 0xcc404ecc14297f7c)
    ∷ (0x71288d2462395ef4, 0xd5c680d5e4063e29)
    ∷ (0x41f8816dfa9b7e26, 0x54ef785429ab5c94)
    ∷ (0x0f3973d3ce6a0a71, 0x0ccdd00c6b755670)
    ∷ (0xf0163caebd6fa01c, 0xc08d9ec07f5c290c)
    ∷ (0x2daf9a7c2fd53694, 0x24267524d2886193)
    ∷ (0xa6bfc8d5c5cfc422, 0x395a4a39ba351257)
    ∷ (0x5a9df7f85e696ceb, 0x484cea4867d3c2e5)
    ∷ (0x145c05466a9818bc, 0x106e4210250dc801)
    ∷ (0xc46b3127868a393c, 0x2e6ccd2e6d261cdb)
    ∷ (0xb4f92d33bcd2d815, 0x90981790ce654709)
    ∷ (0xc85f32a4a04331e9, 0x9ff7f39fcf9ce565)
    ∷ (0x92c2c55cfe2a5d02, 0xd7bb19d7a84f2780)
    ∷ (0x1d7f9635b7771646, 0xa50f8da51f25032e)
    ∷ (0x3d5e9efae60a97da, 0x5b809c5b2852fef8)
    ∷ (0x5e30f638fd2ed519, 0x27844127b804958f)
    ∷ (0x743f1dd4991f58db, 0xd13c71d17c940cb8)
    ∷ (0x62d4f9f24345fd1e, 0x17368717d7130e8c)
    ∷ (0x263be86f42f88517, 0x47230e47662a6089)
    ∷ (0xf7b64d3ef68b1b4a, 0x1213db126944d1a8)
    ∷ (0x9f4c57ef8082ea0a, 0x0d127d0d4db0bbc5)
    ∷ (0xe6fdd888673505d9, 0x06876806d4db2b38)
    ∷ (0x94d825fcedaf5989, 0x6e17066ef912badf)
    ∷ (0x4bd6624ecfd77278, 0x5cd8595cda4c3875)
    ∷ (0x33dd7c1970012276, 0x3c7f163c0462cd73)
    ∷ (0x08990243858eb127, 0xde5395de7d6daed4)
    ∷ (0x17517516823b1a18, 0xad38acadecc267cf)
    ∷ (0xefde4bfbbada0b23, 0xb3e6a7b3eef3e017)
    ∷ (0x04ad01c0a347b9f2, 0x6fc8ab6fdfd7576a)
    ∷ (0x64ce195250c0f995, 0xae9a98ae864e93d3)
    ∷ (0x0c34038326c908d5, 0xb19b3eb1a2baf9be)
    ∷ (0xa0a52875d64ac0a9, 0x80f65580eb688f08)
    ∷ (0x37707dd9d3469b84, 0x53b7bd53dbb59a19)
    ∷ (0xc5d1a017deeb86e1, 0x455e97452a637920)
    ∷ (0xb977bf80c27a6f1d, 0x4a31734a2b9adb4c)
    ∷ (0x114b95b691be1e93, 0x1494b314bd9ffa90)
    ∷ (0x39f39f3a454d2e28, 0x34483734f785a992)
    ∷ (0xcd48a2545b6537c6, 0x9b0d029b570ed7f4)
    ∷ (0x9075243c4ee8e07b, 0x01dfad0126c5edb5)
    ∷ (0xf2a1ddce0dad1d65, 0x16e92a16f1d6e339)
    ∷ (0xe87e3a6bf13eb075, 0x6178e261f8eb18b3)
    ∷ (0xac912bf6f083c87c, 0x316d6b3149d276b6)
    ∷ (0x5713654b20c1dbe3, 0x92e58e92822c5ea0)
    ∷ (0xf4bb3d6e1e2819ee, 0xaf4535afa08b7e66)
    ∷ (0x7d1c8ea744f05621, 0x645dbe6446bcc797)
    ∷ (0xa83c2a3653c4718e, 0x5ea5c05e960521dc)
    ∷ (0xd280d5015cd09cf9, 0xe8663be8c6a11eef)
    ∷ (0x4961832e7f15cf01, 0x8abced8a54c6f240)
    ∷ (0xa40829b5750d795b, 0xef3efeef34bfd862)
    ∷ (0x838950ea6f944391, 0xc32faac315d0dd10)
    ∷ (0xfd98ae1dc3c71714, 0x1a24fa1a9aa3b549)
    ∷ (0xd914a71231fd2f7a, 0x8b63408b72031ff5)
    ∷ (0xe3ea48789c1303f6, 0x027d99024c4919a9)
    ∷ (0xb7f45d635471dab1, 0x2dcef92d07aae8c7)
    ∷ (0xc271d187950f3db7, 0x97c0d2973c7b8184)
    ∷ (0x2781795f1a993aca, 0x2c11542c216f0572)
    ∷ (0xed69aa9b0a18b65a, 0x6582136560792a22)
    ∷ (0x9be1562f23c553f8, 0x62dad6629267ecaf)
    ∷ (0x5204f5bbdbe7ddcc, 0x961f7f961abe6c31)
    ∷ (0x541e151bc862d947, 0x2fb3602f4be3f16e)
    ∷ (0xbf6d5f20d1ff6b96, 0xf39d6cf37ac74613)
    ∷ (0x248c090ff23a386e, 0x9147ba91e8a0aabc)
    ∷ (0xc17ca1d77dac3f13, 0x2a963c2af5b42e4a)
    ∷ (0xd33a443104b12324, 0x8354618381e47b14)
    ∷ (0xa11fb9458e2b7f74, 0xebc40febac2deaf3)
    ∷ (0x44ef119d01bd7809, 0x50158950b1396e05)
    ∷ (0xdba34672813f9203, 0x5d07f45dfc89d5c0)
    ∷ (0x2ea2ea2cc7763430, 0x99709b991b47ce5d)
    ∷ (0x7225fd748a9a5c50, 0x68906e682dc991e7)
    ∷ (0x599087a8b6ca6e4f, 0xf51a04f5ae1c6d2b)
    ∷ (0x780b1e57bfd6500e, 0x60a74f60de2ef506)
    ∷ (0xe5f0a8d88f96077d, 0xbbd186bb1d1484f6)
    ∷ (0xba7acfd02ad96db9, 0xf7679df7e2557482)
    ∷ (0x1246e5e6791d1c37, 0xa9c25da97450555e)
    ∷ (0x9562b4ccb5cee654, 0x05255c05be57df24)
    ∷ (0x2bb57adc3c50321f, 0x9d8a6a9d83d5fccc)
    ∷ (0x2a0febec64318dc2, 0xf6b830f6c4909937)
    ∷ (0xf501ac5e4649a633, 0xc4776fc4e7ce1b9d)
    ∷ (0xb1eebdc347f4de3a, 0x9462e69456f77598)
    ∷ (0x2296e9afe1bf3ce5, 0x28eba528b9fd37e3)
    ∷ (0x813eb18adf56fee8, 0x154b1e159b5a1725)
    ∷ (0x881d22f902b9f012, 0xa02ad1a0a172dc0a)
    ∷ (0x582a1698eeabd192, 0x9e285e9ee95908d0)
    ∷ (0x0e83e2e3960bb5ac, 0x67ff8a672c30338b)
    ∷ (0xc9e5a394f8228e34, 0xf4c5a9f488d9809e)
    ∷ (0xe0e7382874b00152, 0xbf2b77bf8586b667)
    ∷ (0x2f187b1c9f178bed, 0xf242c1f25c02aba6)
    ∷ (0x09239373ddef0efa, 0xb561cfb53a28cb2f)
    ∷ (0xc76641776e293b98, 0x933a2393a4e9b315)
    ∷ (0x9378546ca64be2df, 0xbc8943bcef0a427b)
    ∷ (0x0000000000000000, 0x0000000000000000)
    ∷ (0x29029bbc8c928f66, 0x4beede4b0d5f36f9)
    ∷ (0x051790f0fb26062f, 0x04faf10498923291)
    ∷ (0x56a9f47b78a0643e, 0xf9d7d4f9c5693b5b)
    ∷ []
